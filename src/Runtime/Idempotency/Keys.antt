-- ===== src/Runtime/Idempotency/Keys.antt =====
-- packages/runtime/src/idempotency.ts: when two deliveries have the same key.
use text.Mathlib.TextLemmas.{append_cancel_left}
use qev_platform.Base.{String, ◌≡◌, ◌↔◌, refl, true, some, ◌<>◌, truthy}
use qev_platform.Runtime.Idempotency.{KeyParts, make_idempotency_key}

key-provider :
    (generated : KeyParts → String) (parts : KeyParts) (provider : String)
    → parts.provider_event_id ≡ some provider
    → truthy provider ≡ true
    → make_idempotency_key generated parts
      ≡ "prov:" <> parts.tenant_id <> ":" <> parts.connector <> ":" <> provider
unfolding make_idempotency_key
key-provider generated parts provider e t = rw (e, t) refl

-- Two deliveries of one tenant over one connector that both name the provider's event have the same key
-- exactly if they name the same event, whatever else they hold.
pub make_idempotency_key_iff :
    (generated : KeyParts → String) (a b : KeyParts) (p q : String)
    → a.tenant_id ≡ b.tenant_id
    → a.connector ≡ b.connector
    → a.provider_event_id ≡ some p
    → b.provider_event_id ≡ some q
    → truthy p ≡ true
    → truthy q ≡ true
    → (make_idempotency_key generated a ≡ make_idempotency_key generated b) ↔ (p ≡ q)
make_idempotency_key_iff generated a b p q tenant connector ea eb tp tq =
    rw (key-provider generated a p ea tp, key-provider generated b q eb tq, tenant, connector)
      (
        (λ h. append_cancel_left ("prov:" <> b.tenant_id <> ":" <> b.connector <> ":") p q h),
        (λ h. rw h refl),
      )
