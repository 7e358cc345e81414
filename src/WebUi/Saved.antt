-- ===== src/WebUi/Saved.antt =====
-- internal/webui/settings.go: what a request to the settings leaves.
use do_daemon.Prelude.{Bytes, Option, [], false, inl, inr, none, some, true, ℕ, ◌≡◌}
use do_daemon.Config.{Config, Host, is_empty, validate, with_hostname}
use do_daemon.Acl.{NetPackage, new_acl}
use do_daemon.WebUi.Settings.{SettingsDto, apply_dto, to_dto}
use do_daemon.WebUi.Saving.{
  Disk, Method, Reply, SettingsState, acl_after, bad_request, get, method_not_allowed,
  no_config_path, not_applied, not_valid, other, post, save, save_failed, saved, shown,
}

module _ {W Ip IpNet : Type 0} (host : Host W) (disk : Disk W) (p : NetPackage Ip IpNet)
    (hash : ℕ → Bytes → Option Bytes) (config_path : Bytes) where
  -- The settings `new` have been written in state `st`, and the server goes on with them.
  pub record IsStored (new : Config) (st t : SettingsState W IpNet) : Type 0 where
    pub written : save host disk config_path new st.world ≡ (true, t.world)
    pub kept : t.cfg ≡ with_hostname host new
    pub guarded :
        t.acl ≡ acl_after host disk p hash config_path (new_acl p new.web_ui.ip_allowlist []) st.acl

  -- The settings that were sent in state `st` could be merged.
  pub record IsApplied (decoded : Option SettingsDto) (st : SettingsState W IpNet) (new : Config)
      : Type 0 where
    pub dto : SettingsDto
    pub sent : decoded ≡ some dto
    pub applied : apply_dto hash st.cfg dto ≡ inr new

  -- They are valid too.
  pub record IsAccepted (decoded : Option SettingsDto) (st : SettingsState W IpNet) (new : Config)
      : Type 0 where
    pub merged : IsApplied decoded st new
    pub valid : (validate host new st.world).0 ≡ none

  -- The state in which valid settings are saved.
  abbrev pub behind_validate : Config → SettingsState W IpNet → SettingsState W IpNet
  behind_validate new st = record st { world = (validate host new st.world).1 }

  -- When each reply is given, and what the state is then: `t` behind the request, `st` before it.
  abbrev pub IsRight :
      Method → Option SettingsDto → SettingsState W IpNet → SettingsState W IpNet → Reply → Type 0
  IsRight m decoded st t (shown dto) = (m ≡ get) × (dto ≡ to_dto st.cfg)
  IsRight m decoded st t method_not_allowed = m ≡ other
  IsRight m decoded st t bad_request = (m ≡ post) × (decoded ≡ none)
  IsRight m decoded st t (not_applied e) =
      (m ≡ post)
      × ((dto : SettingsDto) × (decoded ≡ some dto) × (apply_dto hash st.cfg dto ≡ inl e))
  IsRight m decoded st t (not_valid problem) =
      (m ≡ post)
      × ((new : Config) × IsApplied decoded st new
          × ((validate host new st.world).0 ≡ some problem))
  IsRight m decoded st t no_config_path =
      (m ≡ post) × ((new : Config) × IsAccepted decoded st new × (is_empty config_path ≡ true))
  IsRight m decoded st t save_failed =
      (m ≡ post)
      × ((new : Config) × IsAccepted decoded st new
          × ((save host disk config_path new (behind_validate new st).world).0 ≡ false))
  IsRight m decoded st t saved =
      (m ≡ post)
      × ((new : Config) × IsAccepted decoded st new × IsStored new (behind_validate new st) t)

  -- Nothing but `saved` changes the configuration or the access list.
  abbrev pub IsUnchanged : SettingsState W IpNet → SettingsState W IpNet → Reply → Type 0
  IsUnchanged st t saved = Unit
  IsUnchanged st t _ = (t.cfg ≡ st.cfg) × (t.acl ≡ st.acl)

  abbrev pub IsAnswered :
      Method → Option SettingsDto → SettingsState W IpNet → Reply × SettingsState W IpNet → Type 0
  IsAnswered m decoded st (reply, t) = IsRight m decoded st t reply × IsUnchanged st t reply
