-- ===== src/Runtime/Idempotency.antt =====
-- packages/runtime/src/idempotency.ts: the key under which a delivery is recognised again.
pub mod Keys
mod Tests
use qev_platform.Base.{String, Option, ◌<>◌, truthy, or_else, if◌then◌else◌}

pub record KeyParts : Type 0 where
  pub tenant_id : String
  pub connector : String
  pub provider_event_id : Option String
  pub event_id : Option String
  pub raw_body_sha256 : Option String

-- `generated` is the hash of the parts, of which the last branch keeps 32 digits.
unfoldable pub make_idempotency_key : (KeyParts → String) → KeyParts → String
make_idempotency_key generated parts =
    let provider = or_else parts.provider_event_id "" in
    let event = or_else parts.event_id "" in
    let raw = or_else parts.raw_body_sha256 "" in
    if truthy provider
    then "prov:" <> parts.tenant_id <> ":" <> parts.connector <> ":" <> provider
    else if truthy event
    then "evt:" <> parts.tenant_id <> ":" <> event
    else if truthy raw
    then "raw:" <> parts.tenant_id <> ":" <> parts.connector <> ":" <> raw
    else "gen:" <> generated parts
