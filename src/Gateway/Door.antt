-- ===== src/Gateway/Door.antt =====
-- apps/gateway/src/server.ts, createServer: what stands before the routes of the gateway, the two checks
-- of the token. An answer is its status.
pub mod Serve
pub mod Guarded
pub mod Samples
mod Tests
use qev_platform.Base.{
  ℕ, String, ◌==◌, Bool, true, false, not, ◌&&◌, ◌||◌, Option, none, some, List, [], ◌∷◌, ◌<>◌, ltb,
  if◌then◌else◌, truthy, contains, any, codes, is_some, or_else,
}
use qev_platform.Json.{Json, Fields, bool, get_field}
use qev_platform.Event.{QevEvent}
use qev_platform.Shared.Hash.{timing_safe_equal_hex}
use qev_platform.Connect.Webhook.{GenericWebhookBody, WebhookOptions, normalize_generic_webhook}
use qev_platform.Gateway.Sealing.Parts.{Gateway}
use qev_platform.Gateway.Ingest.{Process, IngestOptions, IngestAnswer, failed, ingest_event}
use qev_platform.Gateway.Headers.{
  parse_auth, parse_signature, cut_prefix, is_bad_path, webhook_segment, is_signed_webhook, ids_ok,
}

-- `path` is the part of the address before "?", `pathname` the path of its URL. `body_bytes` is the
-- length of the body, and `declared_bytes` the one in its header, 0 if there is none.
pub record Request : Type 0 where
  pub method : String
  pub path : String
  pub pathname : String
  pub authorization : Option String
  pub x_qev_signature : Option String
  pub x_hub_signature_256 : Option String
  pub raw_body : String
  pub body_bytes : ℕ
  pub declared_bytes : ℕ

-- The configuration of the server, and what it calls of Node: `decode_uri` is decodeURIComponent, `hmac`
-- the hexadecimal digest of createHmac("sha256", secret), `parse` JSON.parse, with `none` where they
-- throw. The code takes a body of a webhook for one of its declared type, unchecked: `body_of` reads
-- one that is of the type, and `untyped` stands for what becomes of another, which is not modelled.
pub record Server : Type 0 where
  pub process : Process
  pub require_auth : Bool
  pub path_prefix : String
  pub ingest_token : String
  pub webhook_secret : String
  pub decode_uri : String → Option String
  pub hmac : (secret text : String) → String
  pub parse : String → Option Json
  pub body_of : Json → Option GenericWebhookBody
  pub untyped : Json → Gateway → ℕ × Gateway

-- The request was answered, or goes on to the other routes with its path.
pub data Passage : Type 0 where
  answered : (status : ℕ) → Passage
  passed : (path : String) → Passage

abbrev begins_with : (start text : String) → Bool
begins_with start text = is_some (cut_prefix start text)

abbrev or_root : String → String
or_root path = if truthy path then path else "/"

-- The path without the prefix of the deployment.
unfoldable pub routed_path : (prefix pathname : String) → String
routed_path prefix pathname =
    if truthy prefix && (pathname == prefix || begins_with (prefix <> "/") pathname)
    then or_root (or_else (cut_prefix prefix pathname) "")
    else pathname

-- Both digests are hexadecimal texts, whose code units are their code points.
unfoldable pub is_authenticated :
    (sha256 : String → String) → (token : String) → Option String → Bool
unfolding timing_safe_equal_hex
is_authenticated sha256 token none = false
is_authenticated sha256 token (some bearer) =
    timing_safe_equal_hex (codes (sha256 bearer)) (codes (sha256 token))

abbrev pub status_of_path : Option String → Option ℕ
status_of_path none = some 400
status_of_path (some path) = if is_bad_path path then some 400 else none

-- The answer to a request without the token, if it gets one.
unfoldable pub without_token : (method path : String) → Option ℕ
unfolding is_signed_webhook
without_token method path =
    if method == "GET" && (path == "/healthz" || path == "/v1/health")
    then some 200
    else if method == "POST" && is_signed_webhook path
    then none
    else some 401

-- What stands before the routes: the answer, if there is one.
unfoldable pub front_door : Server → Request → (path : String) → Option ℕ
unfolding is_authenticated parse_auth without_token is_bad_path
front_door server req path =
    let known =
      is_authenticated server.process.platform.sha256 server.ingest_token
        (parse_auth req.authorization) in
    let stopped = without_token req.method path in
    let bad = status_of_path (server.decode_uri req.path) in
    if server.require_auth && not known
    then (elim stopped [ none ↦ bad | some n ↦ some n ])
    else bad

-- Routes under /v1/ that stand before the check of the token.
abbrev is_early : (method path : String) → Bool
is_early method path =
    (method == "GET"
      && any (λ p. path == p) ("/v1/status" ∷ "/v1/settings" ∷ "/v1/preflight" ∷ "/v1/health" ∷ []))
    || ((method == "PUT" && path == "/v1/settings") || (method == "POST" && path == "/v1/match"))

abbrev is_open_portal : (method path : String) → Bool
is_open_portal method path =
    method == "POST" && (begins_with "/v1/portal/" path || path == "/v1/photos")

abbrev is_get_public : (method path : String) → Bool
is_get_public method path =
    method == "GET"
    && (begins_with "/v1/packages" path
        || (begins_with "/v1/cases" path
            || (path == "/v1/settings"
                || (path == "/v1/status"
                    || (begins_with "/v1/receipts" path
                        || (path == "/v1/queue" || path == "/v1/flow-pack"))))))

abbrev is_token : (token : String) → Option String → Bool
is_token token none = false
is_token token (some t) = t == token

-- Whether the check of the token lets a request to another route through.
unfoldable pub may_pass : (token : String) → (method path : String) → Option String → Bool
may_pass token method path bearer =
    is_early method path
    || (not (begins_with "/v1/" path && not (is_open_portal method path))
        || (is_get_public method path
            || (is_token token bearer || (method == "PUT" && path == "/v1/settings"))))

-- readBody: the status of its error, if any. A body that is no JSON is let through.
unfoldable pub read_body : Server → Request → Option ℕ
unfolding ids_ok
read_body server req =
    if ltb 1048576 req.declared_bytes
    then some 413
    else if ltb 1048576 req.body_bytes
    then some 413
    else elim (server.parse req.raw_body) [
      | none ↦ none
      | some value ↦ if ids_ok 0 value then none else some 400
    ]

abbrev header_or : Option String → Option String → Option String
header_or (some h) other = some h
header_or none other = other

unfoldable pub request_signature : Request → Option String
unfolding parse_signature
request_signature req = parse_signature (header_or req.x_qev_signature req.x_hub_signature_256)
