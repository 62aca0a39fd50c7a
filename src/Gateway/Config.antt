-- ===== src/Gateway/Config.antt =====
-- apps/gateway/src/config.ts: the configuration that loadConfig reads from the environment.
use Prim.Native.Char.{code}
use qev_platform.Base.{
  ℕ, ◌+◌, String, ◌==◌, Bool, true, false, not, ◌&&◌, ◌||◌, Option, none, some, List, [], ◌∷◌, ◌<>◌,
  ltb, if◌then◌else◌, or_else, truthy, includes, Assoc, lookup,
}
use qev_platform.Core.Signing.{Result, returned, threw}

pub data DeploymentKind : Type 0 where
  customer_controlled operator_evaluation : DeploymentKind

-- The functions of node:path and node:url that loadConfig calls, and Number on a text.
pub record Platform : Type 1 where
  pub Number : Type 0
  pub number : String → Number
  pub resolve : String → String
  pub join : String → String → String
  pub repo_root : String
  pub exists : String → Bool

pub record GatewayConfig (p : Platform) : Type 0 where
  pub host : String
  pub port : p.Number
  pub data_dir : String
  pub storage_dir : String
  pub events_dir : String
  pub queue_dir : String
  pub case_log_dir : String
  pub settings_dir : String
  pub admin_dir : String
  pub signing_dir : String
  pub webhook_secret : String
  pub ingest_token : String
  pub package_passphrase : String
  pub tenant_id : String
  pub shadow_mode : Bool
  pub require_auth : Bool
  pub deployment_kind : DeploymentKind
  pub path_prefix : String

-- The length of a text in UTF-16 code units.
abbrev units : String → ℕ
units String.[] = 0
units (String.◌∷◌ c s) = (if ltb (code c) 0x10000 then 1 else 2) + units s

abbrev begins_dev : String → Bool
begins_dev (String.◌∷◌ d (String.◌∷◌ e (String.◌∷◌ v (String.◌∷◌ dash s)))) =
    String.◌∷◌ d (String.◌∷◌ e (String.◌∷◌ v (String.◌∷◌ dash ""))) == "dev-"
begins_dev _ = false

-- A secret of at least 32 characters that /change-me|^dev-/ does not find.
unfoldable pub is_strong : Option String → Bool
unfolding includes
is_strong none = false
is_strong (some s) =
    not (not (truthy s) || (ltb (units s) 32 || (includes s "change-me" || begins_dev s)))

abbrev pub secret_names : List String
secret_names = "QEV_WEBHOOK_SECRET" ∷ "QEV_INGEST_TOKEN" ∷ "QEV_PACKAGE_PASSPHRASE" ∷ []

unfoldable pub weak_secret : List String → Assoc String → Option String
unfolding lookup is_strong
weak_secret [] env = none
weak_secret (name ∷ names) env =
    let later = weak_secret names env in
    if is_strong (lookup name env)
    then later
    else some ("Production requires an explicit strong " <> name)

abbrev pub has_tenant : Option String → Bool
has_tenant none = false
has_tenant (some t) = truthy t && not (t == "local-dev")

abbrev pub is_text : Option String → String → Bool
is_text none s = false
is_text (some t) s = t == s

abbrev pub env_get : String → Assoc String → String → String
env_get name env other = or_else (lookup name env) other

abbrev pub missing_tenant : Option String → Bool → Option String
missing_tenant (some message) tenant = some message
missing_tenant none true = none
missing_tenant none false = some "Production requires QEV_TENANT_ID"

-- The error that production makes of missing or weak settings, if any.
unfoldable pub production_error : Assoc String → Option String
unfolding lookup weak_secret
production_error env =
    missing_tenant (weak_secret secret_names env) (has_tenant (lookup "QEV_TENANT_ID" env))

abbrev pub is_production : Assoc String → Bool
is_production env = is_text (lookup "NODE_ENV" env) "production"

module _ (p : Platform) where
  open p use {number, resolve, join, repo_root, exists}

  abbrev pub default_data_dir : String
  default_data_dir =
      if exists (join repo_root "pnpm-workspace.yaml")
      then join repo_root "data"
      else resolve "./data"

  abbrev pub data_dir_of : Assoc String → String
  data_dir_of env = resolve (env_get "QEV_DATA_DIR" env default_data_dir)

  unfoldable pub config_of : Assoc String → GatewayConfig p
  unfolding lookup
  config_of env =
      let base = data_dir_of env in
      record {
        host = env_get "QEV_HOST" env "127.0.0.1";
        port = number (env_get "QEV_PORT" env "7443");
        data_dir = base;
        storage_dir = resolve (env_get "QEV_STORAGE_DIR" env (join base "packages"));
        events_dir = join base "events";
        queue_dir = join base "queue";
        case_log_dir = join base "case-log";
        settings_dir = join base "config";
        admin_dir = join repo_root "apps/admin/public";
        signing_dir = join base "signing";
        webhook_secret = env_get "QEV_WEBHOOK_SECRET" env "dev-webhook-secret-change-me";
        ingest_token = env_get "QEV_INGEST_TOKEN" env "dev-ingest-token-change-me";
        package_passphrase = env_get "QEV_PACKAGE_PASSPHRASE" env "change-me-for-local-dev-only";
        tenant_id = env_get "QEV_TENANT_ID" env "local-dev";
        shadow_mode = not (env_get "QEV_SHADOW_MODE" env "true" == "false");
        require_auth = is_production env || is_text (lookup "QEV_REQUIRE_AUTH" env) "true";
        deployment_kind =
            if is_text (lookup "QEV_DEPLOYMENT_KIND" env) "operator_evaluation"
            then operator_evaluation
            else customer_controlled;
        path_prefix =
            if is_text (lookup "QEV_PATH_PREFIX" env) "/platform" then "/platform" else "";
      }

  abbrev pub unless_error : Option String → GatewayConfig p → Result (GatewayConfig p)
  unless_error none config = returned config
  unless_error (some message) config = threw message

  abbrev pub load_for :
      (production : Bool) → Option String → GatewayConfig p → Result (GatewayConfig p)
  load_for true error config = unless_error error config
  load_for false error config = returned config

  -- A configuration, or the message of the error.
  unfoldable pub load_config : Assoc String → Result (GatewayConfig p)
  unfolding production_error config_of
  load_config env = load_for (is_production env) (production_error env) (config_of env)
