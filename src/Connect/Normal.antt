-- ===== src/Connect/Normal.antt =====
-- packages/event-schema/src/normalize-webhook.ts: the events that deliveries become, and what the type guard of
-- validate.ts says of them.
use text.Mathlib.TextLemmas.{append-eq-nil_iff}
use qev_platform.Base.{
  eq_iff, ◌∙◌, String, ◌≡◌, ◌↔◌, ◌==◌, refl, true, Option, none, some, ◌<>◌, truthy, Option-cases,
  sym, or_else, arith, inl, inr, Bool-cases,
}
use qev_platform.Json.{Json, str}
use qev_platform.Event.{QevEvent}
use qev_platform.Bundle.Encode.{event_json}
use qev_platform.Gateway.Store.{storage_id}
use qev_platform.Gateway.Sealing.Parts.{Gateway}
use qev_platform.Gateway.Ingest.{Process, IngestOptions, ingest_event, duplicate_event}
use qev_platform.Gateway.Ingest.Once.{ingest_event-twice}
use qev_platform.Connect.Validate.{is_qev_event_v1}
use qev_platform.Connect.Accepted.{event_json-is_qev_event_v1}
use qev_platform.Connect.Webhook.{
  flow_or, WebhookOptions, case_value, text_value, delivery_id, event_for, event_of_case,
  normalize_generic_webhook,
}

-- What is given is not empty.
abbrev pub IsFilled : Option String → Type 0
IsFilled none = Unit
IsFilled (some s) = truthy s ≡ true

IsFilled-or :
    (o : Option String) (other : String)
    → truthy other ≡ true
    → (truthy (or_else o other) ≡ true) ↔ IsFilled o
IsFilled-or none other h = ((λ _. tt), (λ _. h))
IsFilled-or (some s) other h = ((λ e. e), (λ e. e))

pub case-truthy : (v : Json) {c : String} → text_value v ≡ some c → truthy c ≡ true
case-truthy (str s) {c} e = elim (Bool-cases (truthy s)) [
  | inl t ↦ let found : some s ≡ some c = rw t at e in let same : s ≡ c = cc in rw (← same) t
  | inr t ↦ let found : none ≡ some c = rw t at e in absurd cc
]
case-truthy _ e = absurd cc

pub append-truthy : (a b : String) → truthy a ≡ true → truthy (a <> b) ≡ true
append-truthy a b h = elim (Bool-cases (a <> b == "")) [
  | inl e ↦
      let empty : a ≡ "" = (append-eq-nil_iff.0 ((eq_iff (a <> b) "").0 e)).0 in
      let bare : a == "" ≡ true = (eq_iff a "").1 empty in absurd (ground (arith, bare, h))
  | inr e ↦ rw e refl
]

delivery-truthy :
    (connector_id fresh : String) (id : Option String)
    → truthy fresh ≡ true
    → truthy (delivery_id connector_id fresh id) ≡ true
delivery-truthy connector_id fresh none h = h
delivery-truthy connector_id fresh (some id) h = elim (Bool-cases (truthy id)) [
  | inl e ↦ rw e (
      append-truthy ("wh_" <> connector_id <> "_") id
        (append-truthy ("wh_" <> connector_id) "_" (append-truthy "wh_" connector_id refl)))
  | inr e ↦ rw e h
]

module _ (sha256 : String → String) where
  normal_lem :
      (fresh now : String) (opts : WebhookOptions) (e : QevEvent)
      → normalize_generic_webhook sha256 fresh now opts ≡ some e
      → (c : String) × (e ≡ event_for sha256 fresh now opts c) × (truthy c ≡ true)
  unfolding normalize_generic_webhook event_of_case
  normal_lem fresh now opts e h = elim (Option-cases (text_value (case_value opts.body))) [
    | inl n ↦ let gone : none ≡ some e = rw n at h in absurd cc
    | inr (c, n) ↦
        let found : some (event_for sha256 fresh now opts c) ≡ some e = rw n at h in
        let same : event_for sha256 fresh now opts c ≡ e = cc in
        (c, sym same, case-truthy (case_value opts.body) n)
  ]

  -- Of the deliveries whose body has the types that GenericWebhookBody declares, with an outcome that
  -- is one of the listed ones: one that becomes an event passes the type guard exactly if it names no
  -- empty date, flow or action, given that the clock, the tenant and the fresh identifier are not
  -- empty.
  pub normalize-is_qev_event_v1 :
      (fresh now : String) (opts : WebhookOptions) (e : QevEvent)
      → truthy fresh ≡ true
      → truthy now ≡ true
      → truthy opts.tenant_id ≡ true
      → normalize_generic_webhook sha256 fresh now opts ≡ some e
      → (is_qev_event_v1 (event_json e) ≡ true) ↔ (
          IsFilled opts.body.occurred_at
          × IsFilled opts.body.action
          × (truthy (flow_or opts.body.flow_id opts.default_flow_id) ≡ true))
  normalize-is_qev_event_v1 fresh now opts e f n t h =
      let (c, same, case) = normal_lem fresh now opts e h in
      let made = event_for sha256 fresh now opts c in
      let guard = event_json-is_qev_event_v1 made in
      let id = delivery-truthy opts.connector_id fresh opts.body.provider_event_id f in
      let occurred = IsFilled-or opts.body.occurred_at now n in
      let action = IsFilled-or opts.body.action "webhook.received" refl in
      rw same (
        (λ g.
            let (_, (o, (_, (_, (flow, (_, (a, _))))))) = guard.0 g in
            (occurred.0 o, action.0 a, flow)),
        (λ g. guard.1 (id, (occurred.1 g.0, (n, (t, (g.2, (case, (action.1 g.1, tt)))))))),
      )

  -- Two deliveries of one connector that name the same provider event, not an empty one, become
  -- events with the same identifier: once the first was ingested the second is a duplicate and
  -- changes nothing, whatever else the two say and whenever they come.
  pub redelivery :
      (fresh fresh' now now' pid : String) (opts opts' : WebhookOptions) (e e' : QevEvent)
      → truthy pid ≡ true
      → opts.body.provider_event_id ≡ some pid
      → opts'.body.provider_event_id ≡ some pid
      → opts'.connector_id ≡ opts.connector_id
      → normalize_generic_webhook sha256 fresh now opts ≡ some e
      → normalize_generic_webhook sha256 fresh' now' opts' ≡ some e'
      → storage_id e.event_id ≡ true
      → (process process' : Process) (asked asked' : IngestOptions) (g : Gateway)
      → ingest_event process' asked' e' (ingest_event process asked e g).1
        ≡ (duplicate_event, (ingest_event process asked e g).1)
  redelivery fresh fresh' now now' pid opts opts' e e' given names names' one h h' ok process
        process' asked asked' g =
      let (c, same, _) = normal_lem fresh now opts e h in
      let (c', same', _) = normal_lem fresh' now' opts' e' h' in
      let id : e.event_id ≡ "wh_" <> opts.connector_id <> "_" <> pid =
        rw (same, names, given) refl in
      let id' : e'.event_id ≡ "wh_" <> opts.connector_id <> "_" <> pid =
        rw (same', names', one, given) refl in
      ingest_event-twice process process' asked asked' e e' g ok (id' ∙ sym id)
