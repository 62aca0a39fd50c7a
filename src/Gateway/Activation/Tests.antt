-- ===== src/Gateway/Activation/Tests.antt =====
-- apps/gateway/src/server.ts: settings that are put, one of them a secret.
use qev_platform.Base.{Option, includes, ◌≡◌, refl, true, false, some}
use qev_platform.Json.{Json, Fields, bool, str, obj, end, field, get_field}
use qev_platform.Ops.Modes.{normalize_mode}
use qev_platform.Ops.Preflight.{run_preflight, preflight_checks}
use qev_platform.Gateway.Config.{customer_controlled}
use qev_platform.Gateway.Store.{storage_id}
use qev_platform.Gateway.Headers.{ids_ok}
use qev_platform.Gateway.Door.{Server, Request, read_body}
use qev_platform.Gateway.Door.Samples.{server, request}
use qev_platform.Gateway.Settings.{no_file, put_field, save_settings}
use qev_platform.Gateway.Activation.{
  Health, build_preflight_report, refuses, put_mode, put_body, put_parsed, put_settings,
}

abbrev health : Health
health = record {
  deployment_kind = customer_controlled;
  package_passphrase = "secret";
  webhook_secret = "webhook";
  storage_writable = true;
  backup_writable = false;
  package_roundtrip_ok = true;
  dead = 3;
  case_log_ok = true;
}

abbrev gated : Fields
gated = field "mode" (str "gate") (
    field "enabled" (bool true)
      (field "gate_confirmed" (bool true) (field "api_token" (str "t0ken") end)))

abbrev server_for : Option Json → Server
server_for value = record server { parse = λ _. value }

abbrev put : Request
put = record (request "") { method = "PUT"; path = "/v1/settings"; pathname = "/v1/settings" }

abbrev unconfirmed : Fields
unconfirmed = field "mode" (str "gate") (field "enabled" (bool true) end)

abbrev outside : Fields
outside = field "flow_id" (str "../x") end

-- The settings above are saved, without the confirmation they are refused, and an identifier that
-- leads out of the folder is an error.
puts :
    (put_settings (server_for (some (obj gated))) "now" health put no_file
      ≡ (200, (save_settings "now" (put_mode "now" gated)).1))
    × (put_settings (server_for (some (obj unconfirmed))) "now" health put no_file ≡ (409, no_file))
    × (put_settings (server_for (some (obj outside))) "now" health put no_file ≡ (400, no_file))
unfolding put_settings put_parsed put_body refuses build_preflight_report run_preflight
    preflight_checks normalize_mode get_field read_body ids_ok storage_id includes
puts = (refl, refl, refl)

-- A secret among the settings is saved.
secret_saved : get_field "api_token" (save_settings "now" (put_mode "now" gated)).0 ≡ str "t0ken"
unfolding get_field put_field put_mode save_settings
secret_saved = refl
