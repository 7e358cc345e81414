-- ===== src/WebUi.antt =====
-- internal/webui: the settings that the web interface shows and saves.
pub mod Text
pub mod Settings
pub mod RoundTrip
pub mod Passwords
pub mod Saving
pub mod Saved
pub mod Site
pub mod Authentic
