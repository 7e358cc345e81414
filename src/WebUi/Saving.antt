-- ===== src/WebUi/Saving.antt =====
-- internal/webui/settings.go: `handleSettingsAPI`, with `Save` of internal/config/config.go. What the
-- disk and YAML do is the record `Disk`, whose `dir` is `filepath.Dir`, over the world of `Config.Host`.
-- `decoded` is what `json.Decode` makes of a body, `none` for an error.
use do_daemon.Prelude.{
  Bool, Bytes, Option, [], false, if◌then◌else◌, inl, inr, none, some, true, ℕ, ◌⊎◌,
}
use do_daemon.Config.{Config, Host, Problem, is_empty, validate, with_hostname}
use do_daemon.Acl.{Acl, AclResult, NetPackage, made, new_acl, refused}
use do_daemon.WebUi.Settings.{DtoError, SettingsDto, apply_dto, available, to_dto}

pub record Disk (W : Type 0) : Type 0 where
  pub dir : Bytes → Bytes
  pub marshal : Config → Option Bytes
  pub write_file : Bytes → Bytes → W → Bool × W

module _ {W : Type 0} (host : Host W) (disk : Disk W) where
  -- `Save`, and whether it went well.
  unfoldable pub save : Bytes → Config → W → Bool × W
  save path cfg w =
      let (made_dir, w') = host.mkdir_all (disk.dir path) w in
      if made_dir
      then elim (disk.marshal (with_hostname host cfg)) [
        | none ↦ (false, w')
        | some bytes ↦ disk.write_file path bytes w'
      ]
      else (false, w')

-- The server's state that the settings touch; `acl` is `nil` for `none`.
pub record SettingsState (W : Type 0) (IpNet : Type 0) : Type 0 where
  pub cfg : Config
  pub acl : Acl IpNet
  pub world : W

pub data Method : Type 0 where
  get post other : Method

pub data Reply : Type 0 where
  shown : SettingsDto → Reply
  saved bad_request no_config_path save_failed method_not_allowed : Reply
  not_applied : DtoError → Reply
  not_valid : Problem → Reply

-- `autostart.SetEnabled`
abbrev pub set_enabled : {W : Type 0} → Bool → W → W
set_enabled want w = w

module _ {W Ip IpNet : Type 0} (host : Host W) (disk : Disk W) (p : NetPackage Ip IpNet)
    (hash : ℕ → Bytes → Option Bytes) (config_path : Bytes) where
  abbrev pub acl_after : AclResult IpNet → Acl IpNet → Acl IpNet
  acl_after (made allow deny) old = some (allow, deny)
  acl_after (refused e) old = old

  -- What follows `Save`.
  unfoldable pub after_save :
      Config → SettingsDto → Bool × W → SettingsState W IpNet → Reply × SettingsState W IpNet
  after_save new dto (true, w) st = (
    saved,
    record {
      cfg = with_hostname host new;
      acl = acl_after (new_acl p new.web_ui.ip_allowlist []) st.acl;
      world = if available then set_enabled dto.autostart_enabled w else w;
    },
  )
  after_save new dto (false, w) st = (save_failed, record st { world = w })

  -- The end of a `POST`, where the settings have been validated.
  unfoldable pub store :
      Config → SettingsDto → SettingsState W IpNet → Reply × SettingsState W IpNet
  unfolding save after_save
  store new dto st =
      if is_empty config_path
      then (no_config_path, st)
      else after_save new dto (save host disk config_path new st.world) st

  -- What follows `Validate`.
  unfoldable pub store_if_valid :
      Config → SettingsDto → Option Problem → SettingsState W IpNet → Reply × SettingsState W IpNet
  unfolding store
  store_if_valid new dto none st = store new dto st
  store_if_valid new dto (some problem) st = (not_valid problem, st)

  -- What follows `applyDTO`.
  unfoldable pub after_apply :
      DtoError ⊎ Config → SettingsDto → SettingsState W IpNet → Reply × SettingsState W IpNet
  unfolding store_if_valid
  after_apply (inl e) dto st = (not_applied e, st)
  after_apply (inr new) dto st =
      let (problem, w) = validate host new st.world in
      store_if_valid new dto problem (record st { world = w })

  -- `handleSettingsAPI`
  unfoldable pub handle_settings_api :
      Method → Option SettingsDto → SettingsState W IpNet → Reply × SettingsState W IpNet
  unfolding apply_dto to_dto after_apply
  handle_settings_api get decoded st = (shown (to_dto st.cfg), st)
  handle_settings_api post none st = (bad_request, st)
  handle_settings_api post (some dto) st = after_apply (apply_dto hash st.cfg dto) dto st
  handle_settings_api other decoded st = (method_not_allowed, st)
