-- ===== src/Gateway/Configured/Tests.antt =====
-- apps/gateway/src/config.ts: loadConfig in production, with strong secrets.
use qev_platform.Base.{String, ◌≡◌, ◌↔◌, refl, true, ◌∷◌, [], ◌<>◌, Assoc, lookup}
use qev_platform.Core.Signing.{returned}
use qev_platform.Gateway.Config.{Platform, GatewayConfig, is_production, load_config}
use qev_platform.Gateway.Configured.{IsHardened, IsSafe, load_config-production}

abbrev platform : Platform
platform = record {
  Number = String;
  number = λ s. s;
  resolve = λ s. s;
  join = λ s t. s <> "/" <> t;
  repo_root = "/repo";
  exists = λ s. true;
}

abbrev env : Assoc String
env =
    ("NODE_ENV", "production")
    ∷ ("QEV_WEBHOOK_SECRET", "0123456789abcdef0123456789abcdef")
    ∷ ("QEV_INGEST_TOKEN", "0123456789abcdef0123456789abcdef")
    ∷ ("QEV_PACKAGE_PASSPHRASE", "0123456789abcdef0123456789abcdef")
    ∷ ("QEV_TENANT_ID", "acme")
    ∷ []

live : is_production env ≡ true
unfolding lookup
live = refl

load_config-production_example :
    (IsHardened env ↔ ((c : GatewayConfig platform) × (load_config platform env ≡ returned c)))
    × ((c : GatewayConfig platform) → load_config platform env ≡ returned c → IsSafe c)
load_config-production_example = load_config-production platform env live
