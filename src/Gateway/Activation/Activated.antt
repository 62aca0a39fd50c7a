-- ===== src/Gateway/Activation/Activated.antt =====
-- apps/gateway/src/server.ts: what the settings satisfy that are put.
use qev_platform.Base.{ℕ, String, ◌==◌, ◌≡◌, true, false}
use qev_platform.Json.{Fields, str, get_field}
use qev_platform.Ops.Modes.{mode_text}
use qev_platform.Ops.Preflight.{IsReady}
use qev_platform.Gateway.Settings.{SettingsFile, save_settings}
use qev_platform.Gateway.Activation.{
  Health, preflight_input, mode_in, is_shadow, is_gate, is_evaluation, watches_folder, is_set,
  put_mode,
}

-- An evaluation stays in shadow mode and watches no folder; the flow is enabled only where the
-- preflight is in order, and in gate mode only with the confirmation.
pub record IsAllowed (h : Health) (body : Fields) : Type 0 where
  pub evaluation :
      is_evaluation h.deployment_kind ≡ true
      → (is_shadow (mode_in body) ≡ true) × (watches_folder body ≡ false)
  pub ready : is_set "enabled" body ≡ true → IsReady (preflight_input h)
  pub confirmed :
      is_set "enabled" body ≡ true
      → is_gate (mode_in body) ≡ true
      → is_set "gate_confirmed" body ≡ true

-- What putting the entries of a body does.
pub record IsPut (now : String) (h : Health) (body : Fields) (file : SettingsFile)
    (r : ℕ × SettingsFile) : Type 0 where
  pub allowed : IsAllowed h body → r ≡ (200, (save_settings now (put_mode now body)).1)
  pub refused : ¬ IsAllowed h body → r ≡ (409, file)
  pub mode :
      get_field "mode" (save_settings now (put_mode now body)).0 ≡ str (mode_text (mode_in body))
  pub others :
      (key : String)
      → ("mode" == key) ≡ false
      → ("updated_at" == key) ≡ false
      → get_field key (save_settings now (put_mode now body)).0 ≡ get_field key body
