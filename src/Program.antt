-- ===== src/Program.antt =====
-- cmd/dodaemon/main.go: the servers that `newRunFunc` starts for a configuration, and what a
-- configuration that is loaded again does to them. An instance of a server has a number; `registered`
-- says which instance the supervisor has under each name. `load_key_pair` is `tls.LoadX509KeyPair`, and
-- `opens` says whether the syslog server's store can be opened; a nil slice and an empty one are the
-- same.
pub mod Equality
pub mod Services
pub mod Current
pub mod Refined
pub mod Reloads
pub mod Retry
