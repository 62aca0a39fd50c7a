-- ===== src/Gateway/Activation.antt =====
-- apps/gateway/src/server.ts: buildPreflightReport and the route that puts the settings, which activates
-- the flow. An answer is its status.
pub mod Activated
mod Tests
use qev_platform.Base.{
  ℕ, ◌+◌, decimal, String, ◌==◌, Bool, true, false, not, ◌&&◌, ◌||◌, Option, none, some, ltb,
  truthy, if◌then◌else◌,
}
use qev_platform.Json.{
  Json, Items, Fields, undefined, null, bool, num, str, arr, obj, nil, cons, end, field, get_field,
  is_truthy,
}
use qev_platform.Ops.Modes.{OperatingMode, record_mode, shadow, gate, mode_text, normalize_mode}
use qev_platform.Ops.Preflight.{PreflightInput, PreflightReport, run_preflight}
use qev_platform.Gateway.Config.{DeploymentKind, customer_controlled, operator_evaluation}
use qev_platform.Gateway.Door.{Server, Request, read_body}
use qev_platform.Gateway.Settings.{SettingsFile, put_field, save_settings}

-- What a report looks at: the configuration, the dead jobs, the chain of the log, and how the attempts
-- to write to both folders and to seal and open a package ended.
pub record Health : Type 0 where
  pub deployment_kind : DeploymentKind
  pub package_passphrase : String
  pub webhook_secret : String
  pub storage_writable : Bool
  pub backup_writable : Bool
  pub package_roundtrip_ok : Bool
  pub dead : ℕ
  pub case_log_ok : Bool

abbrev pub preflight_input : Health → PreflightInput
preflight_input h = record {
  gateway_reachable = true;
  storage_writable = h.storage_writable;
  backup_writable = h.backup_writable;
  signing_key_present = true;
  encryption_passphrase_configured = truthy h.package_passphrase;
  webhook_secret_configured = not (h.webhook_secret == "dev-webhook-secret-change-me");
  queue_healthy = ltb h.dead 100;
  case_log_chain_ok = h.case_log_ok;
  package_roundtrip_ok = some h.package_roundtrip_ok;
  clock_skew = none;
}

unfoldable pub build_preflight_report : (now : String) → Health → PreflightReport
unfolding run_preflight
build_preflight_report now h = run_preflight now (preflight_input h)

-- value?.key
abbrev member : (key : String) → Json → Json
member key (obj fields) = get_field key fields
member key _ = undefined

abbrev text_in : Json → Option String
text_in (str s) = some s
text_in _ = none

abbrev pub mode_in : Fields → OperatingMode
mode_in body = normalize_mode (text_in (get_field "mode" body))

abbrev pub is_shadow : OperatingMode → Bool
is_shadow shadow = true
is_shadow _ = false

abbrev pub is_gate : OperatingMode → Bool
is_gate gate = true
is_gate _ = false

abbrev pub is_evaluation : DeploymentKind → Bool
is_evaluation operator_evaluation = true
is_evaluation customer_controlled = false

abbrev pub watches_folder : Fields → Bool
watches_folder body =
    is_truthy (member "watch_dir" (member "photo_file" (get_field "connectors" body)))

abbrev pub is_set : (key : String) → Fields → Bool
is_set key body = is_truthy (get_field key body)

-- Whether the settings of a body are refused.
unfoldable pub refuses : Health → (can_activate : Bool) → Fields → Bool
unfolding normalize_mode get_field
refuses h can_activate body =
    if is_evaluation h.deployment_kind && (not (is_shadow (mode_in body)) || watches_folder body)
    then true
    else if is_set "enabled" body
    then (if not can_activate
        then true
        else if is_gate (mode_in body)
        then not (is_set "gate_confirmed" body)
        else false)
    else false

-- { ...body, mode, updated_at }
unfoldable pub put_mode : (now : String) → Fields → Fields
unfolding put_field normalize_mode get_field
put_mode now body =
    put_field "updated_at" (str now) (put_field "mode" (str (mode_text (mode_in body))) body)

unfoldable pub numbered : ℕ → Items → Fields
unfolding decimal
numbered n nil = end
numbered n (cons value items) = field (decimal n) value (numbered (n + 1) items)

unfoldable pub lettered : ℕ → String → Fields
unfolding decimal
lettered n String.[] = end
lettered n (String.◌∷◌ c s) = field (decimal n) (str (String.◌∷◌ c "")) (lettered (n + 1) s)

-- The entries that { ...value } takes over.
abbrev pub entries_of : Json → Fields
entries_of (obj fields) = fields
entries_of (arr items) = numbered 0 items
entries_of (str s) = lettered 0 s
entries_of _ = end

unfoldable pub put_body : (now : String) → Health → Fields → SettingsFile → ℕ × SettingsFile
unfolding refuses build_preflight_report put_mode save_settings
put_body now h body file =
    if refuses h (build_preflight_report now h).can_activate body
    then (409, file)
    else (200, (save_settings now (put_mode now body)).1)

-- A body that is no JSON is a SyntaxError, and reading the mode of null a TypeError.
unfoldable pub put_parsed : (now : String) → Health → Option Json → SettingsFile → ℕ × SettingsFile
unfolding put_body
put_parsed now h none file = (400, file)
put_parsed now h (some null) file = (500, file)
put_parsed now h (some value) file = put_body now h (entries_of value) file

abbrev pub put_read :
    (now : String) → Health → (failed : Option ℕ) → Option Json → SettingsFile → ℕ × SettingsFile
put_read now h (some status) value file = (status, file)
put_read now h none value file = put_parsed now h value file

-- The route: the answer, and the file of the settings after it.
unfoldable pub put_settings :
    Server → (now : String) → Health → Request → SettingsFile → ℕ × SettingsFile
unfolding read_body put_parsed
put_settings server now h req file =
    put_read now h (read_body server req) (server.parse req.raw_body) file
