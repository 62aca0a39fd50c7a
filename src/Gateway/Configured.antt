-- ===== src/Gateway/Configured.antt =====
-- apps/gateway/src/config.ts: which configurations production accepts, and what they guarantee.
mod Tests
use mathlib.Core.Path.{subst}
use qev_platform.Base.{
  ℕ, String, ◌≡◌, ◌↔◌, ◌==◌, refl, ap, sym, ◌∙◌, Bool, true, false, not, ◌&&◌, ◌||◌, Option, none,
  some, List, [], ◌∷◌, if◌then◌else◌, or_else, Assoc, lookup, All, arith, inl, inr, Bool-cases,
  Option-cases,
}
use qev_platform.Core.Signing.{Result, returned, threw}
use qev_platform.Gateway.Config.{
  Platform, GatewayConfig, is_strong, secret_names, missing_tenant, unless_error, load_for,
  weak_secret, has_tenant, production_error, is_production, config_of, load_config, env_get,
}

weak_secret-none :
    (names : List String) (env : Assoc String)
    → (weak_secret names env ≡ none) ↔ All (λ n. is_strong (lookup n env) ≡ true) names
unfolding weak_secret
weak_secret-none [] env = ((λ _. tt), (λ _. refl))
weak_secret-none (n ∷ names) env = elim (Bool-cases (is_strong (lookup n env))) [
  | inl s ↦
      rw s
        ((λ h. (refl, (weak_secret-none names env).0 h)), (λ h. (weak_secret-none names env).1 h.1))
  | inr s ↦ rw s ((λ h. absurd cc), (λ h. absurd (ground (arith, h.0))))
]

error-none :
    (o : Option String) (tenant : Bool)
    → (missing_tenant o tenant ≡ none) ↔ ((o ≡ none) × (tenant ≡ true))
error-none none true = ((λ _. (refl, refl)), (λ _. refl))
error-none none false = ((λ h. absurd cc), (λ h. absurd cc))
error-none (some m) tenant = ((λ h. absurd cc), (λ h. absurd cc))

-- What production asks of the environment.
pub record IsHardened (env : Assoc String) : Type 0 where
  pub secrets : All (λ n. is_strong (lookup n env) ≡ true) secret_names
  pub tenant : has_tenant (lookup "QEV_TENANT_ID" env) ≡ true

production_error-none : (env : Assoc String) → (production_error env ≡ none) ↔ IsHardened env
unfolding production_error
production_error-none env =
    let both =
      error-none (weak_secret secret_names env) (has_tenant (lookup "QEV_TENANT_ID" env)) in
    let secrets = weak_secret-none secret_names env in
    (
      (λ h. record { secrets = secrets.0 (both.0 h).0; tenant = (both.0 h).1 }),
      (λ g. both.1 (secrets.1 g.secrets, g.tenant)),
    )

unless_error-returned :
    {p : Platform} (o : Option String) (made c : GatewayConfig p)
    → unless_error p o made ≡ returned c
    → (o ≡ none) × (made ≡ c)
unless_error-returned none made c e = (refl, cc)
unless_error-returned (some m) made c e = absurd cc

strong_given :
    (o : Option String) (other : String)
    → is_strong o ≡ true
    → is_strong (some (or_else o other)) ≡ true
unfolding is_strong
strong_given none other h = absurd cc
strong_given (some s) other h = h

tenant_given :
    (o : Option String) (other : String)
    → has_tenant o ≡ true
    → has_tenant (some (or_else o other)) ≡ true
tenant_given none other h = absurd cc
tenant_given (some s) other h = h

-- A configuration that is safe to serve with.
pub record IsSafe {p : Platform} (c : GatewayConfig p) : Type 0 where
  pub authenticates : c.require_auth ≡ true
  pub webhook : is_strong (some c.webhook_secret) ≡ true
  pub ingest : is_strong (some c.ingest_token) ≡ true
  pub passphrase : is_strong (some c.package_passphrase) ≡ true
  pub tenant : has_tenant (some c.tenant_id) ≡ true

module _ (p : Platform) (env : Assoc String) where
  hardened-IsSafe : is_production env ≡ true → IsHardened env → IsSafe (config_of p env)
  unfolding config_of
  hardened-IsSafe live h =
      let (webhook, (ingest, (passphrase, _))) = h.secrets in
      record {
        authenticates = rw live refl;
        webhook = strong_given (lookup "QEV_WEBHOOK_SECRET" env) _ webhook;
        ingest = strong_given (lookup "QEV_INGEST_TOKEN" env) _ ingest;
        passphrase = strong_given (lookup "QEV_PACKAGE_PASSPHRASE" env) _ passphrase;
        tenant = tenant_given (lookup "QEV_TENANT_ID" env) _ h.tenant;
      }

  live_lem :
      is_production env ≡ true
      → load_config p env ≡ unless_error p (production_error env) (config_of p env)
  unfolding load_config
  live_lem live = ap (λ b. load_for p b (production_error env) (config_of p env)) live

  loaded :
      is_production env ≡ true
      → (c : GatewayConfig p) → load_config p env ≡ returned c
      → IsHardened env × (config_of p env ≡ c)
  loaded live c e =
      let (passed, same) =
        unless_error-returned (production_error env) (config_of p env) c
          (sym (live_lem live) ∙ e) in
      ((production_error-none env).0 passed, same)

  -- In production a configuration is loaded exactly if the three secrets and the tenant are given and
  -- strong, and every configuration that is loaded demands authentication and holds strong secrets:
  -- no default of development is ever used.
  pub load_config-production :
      is_production env ≡ true
      → (IsHardened env ↔ ((c : GatewayConfig p) × (load_config p env ≡ returned c)))
        × ((c : GatewayConfig p) → load_config p env ≡ returned c → IsSafe c)
  load_config-production live = (
    (
      (λ h. (
        config_of p env,
        live_lem live
            ∙ ap (λ o. unless_error p o (config_of p env)) ((production_error-none env).1 h),
      )),
      (λ h. (loaded live h.0 h.1).0),
    ),
    (λ c e.
        let (hardened, same) = loaded live c e in
        subst IsSafe same (hardened-IsSafe live hardened)),
  )
