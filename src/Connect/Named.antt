-- ===== src/Connect/Named.antt =====
-- packages/event-schema/src/normalize-webhook.ts and validate.ts: which bodies become events that pass the
-- type guard.
use qev_platform.Base.{
  String, ◌≡◌, ◌↔◌, refl, Bool, true, false, ◌||◌, Option, none, some, [], ◌∷◌, or_else, truthy,
  ◌<>◌, All, inl, inr, Bool-cases, Option-cases,
}
use qev_platform.Json.{Json, undefined, null, bool, num, str, arr, obj, get_field, is_truthy}
use qev_platform.Connect.Validate.{is_text, property, is_qev_event_v1, shown}
use qev_platform.Connect.Accepted.{is_qev_event_v1_iff}
use qev_platform.Connect.Webhook.{given_or, text_value}
use qev_platform.Connect.Normal.{case-truthy, append-truthy}
use qev_platform.Connect.Untyped.{
  Delivery, value_id, value_gaps, value_case, value_event, value_noted, value_cased,
  normalize_value,
}

abbrev is_absent : Json → Bool
is_absent undefined = true
is_absent null = true
is_absent _ = false

-- A value is left out or null, or is a text that is not empty.
abbrev pub IsNamed : Json → Type 0
IsNamed value = (is_absent value || is_text value) ≡ true

IsNamed-or :
    (value : Json) (other : String)
    → truthy other ≡ true
    → (is_text (given_or value (str other)) ≡ true) ↔ IsNamed value
IsNamed-or undefined other h = ((λ _. refl), (λ _. h))
IsNamed-or null other h = ((λ _. refl), (λ _. h))
IsNamed-or (bool b) other h = ((λ g. g), (λ g. g))
IsNamed-or (num n) other h = ((λ g. g), (λ g. g))
IsNamed-or (str s) other h = ((λ g. g), (λ g. g))
IsNamed-or (arr xs) other h = ((λ g. g), (λ g. g))
IsNamed-or (obj fs) other h = ((λ g. g), (λ g. g))

id-truthy :
    (connector fresh : String) (id : Json)
    → truthy fresh ≡ true
    → truthy (value_id connector fresh id) ≡ true
unfolding value_id
id-truthy connector fresh id h = elim (Bool-cases (is_truthy id)) [
  | inl t ↦ rw t (
      append-truthy ("wh_" <> connector <> "_") (shown id)
        (append-truthy ("wh_" <> connector) "_" (append-truthy "wh_" connector refl)))
  | inr t ↦ rw t h
]

module _ (sha256 : String → String) (fresh now : String) (opts : Delivery) where
  noted_lem :
      (case_id : String) (gaps : Option Json) (body e : Json)
      → value_noted sha256 fresh now opts case_id gaps body ≡ some e
      → (g : Json) × (e ≡ value_event sha256 fresh now opts case_id g body)
  noted_lem case_id none body e h = absurd cc
  noted_lem case_id (some gaps) body e h = (gaps, cc)

  cased_lem :
      (body e : Json)
      → value_cased sha256 fresh now opts (text_value (value_case body)) body ≡ some e
      → (c : String) × (g : Json) × (e ≡ value_event sha256 fresh now opts c g body)
        × (truthy c ≡ true)
  unfolding value_cased
  cased_lem body e h = elim (Option-cases (text_value (value_case body))) [
    | inl n ↦ let gone : none ≡ some e = rw n at h in absurd cc
    | inr (c, n) ↦
        let (g, same) =
          noted_lem c (value_gaps (property "artifacts" body) (property "known_gaps" body)) body e
            (rw n at h) in
        (c, g, same, case-truthy (value_case body) n)
  ]

  value_lem :
      (body e : Json)
      → normalize_value sha256 fresh now opts body ≡ some e
      → (c : String) × (g : Json) × (e ≡ value_event sha256 fresh now opts c g body)
        × (truthy c ≡ true)
  unfolding normalize_value
  value_lem null e h = absurd cc
  value_lem undefined e h = absurd cc
  value_lem (bool b) e h = cased_lem (bool b) e h
  value_lem (num n) e h = cased_lem (num n) e h
  value_lem (str s) e h = cased_lem (str s) e h
  value_lem (arr xs) e h = cased_lem (arr xs) e h
  value_lem (obj fs) e h = cased_lem (obj fs) e h

  -- Whatever JSON value the body of a delivery is: one that becomes an event passes the type guard
  -- exactly if its occurred_at, flow_id, action and outcome are each left out or null, or a text that
  -- is not empty, given that the clock, the tenant, the default flow and the fresh identifier are
  -- not empty.
  pub normalize_value-is_qev_event_v1 :
      (body e : Json)
      → truthy fresh ≡ true
      → truthy now ≡ true
      → truthy opts.tenant_id ≡ true
      → truthy (or_else opts.default_flow_id "devops-change") ≡ true
      → normalize_value sha256 fresh now opts body ≡ some e
      → (is_qev_event_v1 e ≡ true)
        ↔ All
            (λ key. IsNamed (property key body))
            ("occurred_at" ∷ "flow_id" ∷ "action" ∷ "outcome" ∷ [])
  unfolding value_event get_field
  normalize_value-is_qev_event_v1 body e f n t d h =
      let (c, g, same, case) = value_lem body e h in
      let made = value_event sha256 fresh now opts c g body in
      let guard = is_qev_event_v1_iff made in
      let id = id-truthy opts.connector_id fresh (property "provider_event_id" body) f in
      let occurred = IsNamed-or (property "occurred_at" body) now n in
      let flow =
        IsNamed-or (property "flow_id" body) (or_else opts.default_flow_id "devops-change") d in
      let action = IsNamed-or (property "action" body) "webhook.received" refl in
      let outcome = IsNamed-or (property "outcome" body) "unknown" refl in
      rw same (
        (λ k.
            let (_, (o, (_, (_, (fl, (_, (a, (out, _)))))))) = (guard.0 k).texts in
            (occurred.0 o, (flow.0 fl, (action.0 a, (outcome.0 out, tt))))),
        (λ (o, (fl, (a, (out, _)))). guard.1 (record {
          object = refl;
          schema = refl;
          texts = (
            id,
            (occurred.1 o, (n, (t, (flow.1 fl, (case, (action.1 a, (outcome.1 out, tt))))))),
          );
          source = refl;
          actor = refl;
          privacy = refl;
        })),
      )
