-- ===== src/Gateway/Door/Guarded.antt =====
-- apps/gateway/src/server.ts, createServer: what a request without the token can do.
use qev_platform.Base.{
  ℕ, String, ◌==◌, ◌≡◌, ◌≢◌, ◌⊎◌, inl, inr, ◌∙◌, ap, refl, true, false, not, Option, none, some,
  truthy, eqb, codes, arith, Bool-cases, Option-cases, Collision, same_or_collision,
}
use qev_platform.Json.{Json}
use qev_platform.Json.Quote.{codes_inj}
use qev_platform.Shared.Hash.{timing_safe_equal_hex}
use qev_platform.Shared.HashLaws.{timing_safe_equal_hex_iff}
use qev_platform.Event.{QevEvent}
use qev_platform.Connect.Webhook.{GenericWebhookBody}
use qev_platform.Gateway.Sealing.Parts.{Gateway}
use qev_platform.Gateway.Ingest.{IngestAnswer, duplicate_event, failed, blocked_event, accepted}
use qev_platform.Gateway.Headers.{
  all_codes, is_connector_code, is_connector_name, plain_segment, cut_prefix, parse_auth,
  is_signed_webhook, webhook_segment,
}
use qev_platform.Gateway.Door.{
  Request, Server, Passage, answered, is_authenticated, without_token, front_door, routed_path,
  request_signature, read_body,
}
use qev_platform.Gateway.Door.Serve.{
  reply, ingest_delivery, deliver_body, deliver, deliver_signed, after_body, receive_webhook, route,
  through_door, serve,
}

-- The request was answered, and either it left the gateway as it was or it is signed with the secret.
abbrev pub IsGuarded : Server → Request → Gateway → Passage × Gateway → Type 0
IsGuarded server req g r =
    (status : ℕ) × ((r.0 ≡ answered status)
      × ((r.1 ≡ g)
          ⊎ (request_signature req ≡ some (server.hmac server.webhook_secret req.raw_body))))

equal_hex-codes : (s t : String) → timing_safe_equal_hex (codes s) (codes t) ≡ true → s ≡ t
equal_hex-codes s t h = codes_inj s t ((timing_safe_equal_hex_iff (codes s) (codes t)).0 h)

authenticated_lem :
    (sha256 : String → String) (token : String) (bearer : Option String)
    → is_authenticated sha256 token bearer ≡ true
    → (bearer ≡ some token) ⊎ Collision sha256
unfolding is_authenticated
authenticated_lem sha256 token none h = absurd cc
authenticated_lem sha256 token (some b) h =
    let digests = equal_hex-codes (sha256 b) (sha256 token) h in
    elim (same_or_collision sha256 b token digests) [ inl e ↦ inl (ap some e) | inr c ↦ inr c ]

no_slash :
    (s : String) → all_codes is_connector_code s ≡ true → all_codes (λ n. not (eqb n 0x2f)) s ≡ true
no_slash String.[] h = refl
no_slash (String.◌∷◌ c s) h = ground (arith, no_slash s)

name-segment :
    (o : Option String) → is_connector_name o ≡ true → (s : String) × (plain_segment o ≡ some s)
name-segment none h = absurd cc
name-segment (some s) h =
    let plain = no_slash s in
    let filled : truthy s ≡ true = ground (arith, h) in
    let kept : all_codes (λ n. not (eqb n 0x2f)) s ≡ true = ground (arith, h, plain) in
    (s, rw (filled, kept) refl)

signed_segment :
    (path : String) → is_signed_webhook path ≡ true → (s : String) × (webhook_segment path ≡ some s)
unfolding is_signed_webhook webhook_segment
signed_segment path h = name-segment (cut_prefix "/v1/webhooks/" path) h

without_token-none :
    (method path : String)
    → without_token method path ≡ none
    → ((method == "POST") ≡ true) × (is_signed_webhook path ≡ true)
unfolding without_token
without_token-none method path h = (ground arith, ground arith)

front_door-none :
    (server : Server) (req : Request) (path : String)
    → server.require_auth ≡ true
    → is_authenticated server.process.platform.sha256 server.ingest_token
        (parse_auth req.authorization)
      ≡ false
    → front_door server req path ≡ none
    → without_token req.method path ≡ none
unfolding front_door
front_door-none server req path on unknown h = elim (Option-cases (without_token req.method path)) [
  | inl n ↦ n
  | inr (status, e) ↦ let no : some status ≡ none = rw (on, unknown, e) at h in absurd cc
]

module _ (server : Server) (fresh : String) (req : Request) (g : Gateway) where
  unchanged : (status : ℕ) → IsGuarded server req g (answered status, g)
  unchanged status = (status, (refl, inl refl))

  reply-answered : (r : IngestAnswer × Gateway) → (status : ℕ) × ((reply r).0 ≡ answered status)
  reply-answered (duplicate_event, h) = (202, refl)
  reply-answered (failed message, h) = (500, refl)
  reply-answered (blocked_event d, h) = (202, refl)
  reply-answered (accepted d seal auto, h) = (202, refl)

  ingest_delivery-answered :
      (body : GenericWebhookBody) (e : Option QevEvent)
      → (status : ℕ) × ((ingest_delivery server fresh req body e g).0 ≡ answered status)
  unfolding ingest_delivery
  ingest_delivery-answered body none = (500, refl)
  ingest_delivery-answered body (some event) = reply-answered _

  deliver_body-answered :
      (connector : String) (value : Json) (body : Option GenericWebhookBody)
      → (status : ℕ) × ((deliver_body server fresh req connector value body g).0 ≡ answered status)
  unfolding deliver_body
  deliver_body-answered connector value none = ((server.untyped value g).0, refl)
  deliver_body-answered connector value (some body) = ingest_delivery-answered body _

  deliver-answered :
      (connector : String) (value : Option Json)
      → (status : ℕ) × ((deliver server fresh req connector value g).0 ≡ answered status)
  unfolding deliver
  deliver-answered connector none = (400, refl)
  deliver-answered connector (some value) =
      deliver_body-answered connector value (server.body_of value)

  deliver_signed-IsGuarded :
      (connector : String) (signature : Option String)
      → request_signature req ≡ signature
      → IsGuarded server req g (deliver_signed server fresh req connector signature g)
  unfolding deliver_signed
  deliver_signed-IsGuarded connector none e = unchanged 401
  deliver_signed-IsGuarded connector (some s) e =
      let expected = server.hmac server.webhook_secret req.raw_body in
      elim (Bool-cases (timing_safe_equal_hex (codes s) (codes expected))) [
        | inl same ↦
            let (status, a) = deliver-answered connector (server.parse req.raw_body) in
            rw same (status, (a, inr (e ∙ ap some (equal_hex-codes s expected same))))
        | inr other ↦ rw other (unchanged 401)
      ]

  after_body-IsGuarded :
      (connector : String) (status : Option ℕ)
      → IsGuarded server req g (after_body server fresh req connector status g)
  unfolding after_body
  after_body-IsGuarded connector none =
      deliver_signed-IsGuarded connector (request_signature req) refl
  after_body-IsGuarded connector (some status) = unchanged status

  receive_webhook-IsGuarded :
      (connector : Option String)
      → IsGuarded server req g (receive_webhook server fresh req connector g)
  unfolding receive_webhook
  receive_webhook-IsGuarded none = unchanged 500
  receive_webhook-IsGuarded (some connector) = after_body-IsGuarded connector (read_body server req)

  through_door-IsGuarded :
      (path : String)
      → server.require_auth ≡ true
      → is_authenticated server.process.platform.sha256 server.ingest_token
          (parse_auth req.authorization)
        ≡ false
      → (stopped : Option ℕ) → front_door server req path ≡ stopped
      → IsGuarded server req g (through_door server fresh req path stopped g)
  unfolding through_door route
  through_door-IsGuarded path on unknown (some status) e = unchanged status
  through_door-IsGuarded path on unknown none e =
      let (post, signed) =
        without_token-none req.method path (front_door-none server req path on unknown e) in
      let (segment, found) = signed_segment path signed in
      rw (post, found) (receive_webhook-IsGuarded (server.decode_uri segment))

  -- Where the token is required, a request that does not bear it is answered and never passed to the
  -- other routes, and either it leaves the store, the queue and the log as they were or its
  -- signature is the keyed digest of its body: all this unless two texts with one digest are at hand.
  pub serve-IsGuarded :
      server.require_auth ≡ true
      → parse_auth req.authorization ≢ some server.ingest_token
      → IsGuarded server req g (serve server fresh req g) ⊎ Collision server.process.platform.sha256
  unfolding serve
  serve-IsGuarded on stranger =
      let path = routed_path server.path_prefix req.pathname in
      let sha256 = server.process.platform.sha256 in
      let bearer = parse_auth req.authorization in
      elim (Bool-cases (is_authenticated sha256 server.ingest_token bearer)) [
        | inl same ↦ elim (authenticated_lem sha256 server.ingest_token bearer same) [
          | inl e ↦ absurd (stranger e)
          | inr c ↦ inr c
        ]
        | inr unknown ↦
            let through =
              through_door-IsGuarded path on unknown (front_door server req path) refl in
            elim (Bool-cases (req.method == "OPTIONS")) [
              | inl o ↦ inl (rw o (unchanged 204))
              | inr o ↦ inl (rw o through)
            ]
      ]
