-- ===== src/Connect/Accepted.antt =====
-- packages/event-schema/src/validate.ts: which values the type guard lets through.
use qev_platform.Base.{
  String, ◌≡◌, ◌↔◌, refl, Bool, true, false, not, Option, none, some, List, [], ◌∷◌, ◌<>◌, truthy,
  if◌then◌else◌, is_some, All, arith, inl, inr, Bool-cases,
}
use qev_platform.Json.{Json, get_field}
use qev_platform.Event.{QevEvent, Outcome, success, failure, pending, blocked, unknown}
use qev_platform.Policy.{outcome_text}
use qev_platform.Bundle.Encode.{event_json, source, actor, privacy}
use qev_platform.Connect.Validate.{
  is_object, property, is_text, is_schema, first_of, shown, text_keys, first_invalid,
  missing_object, assert_qev_event_v1, is_qev_event_v1,
}

-- What the guard looks at.
pub record IsGuarded (e : Json) : Type 0 where
  pub object : is_object e ≡ true
  pub schema : is_schema (property "schema" e) ≡ true
  pub texts : All (λ k. is_text (property k e) ≡ true) text_keys
  pub source : is_object (property "source" e) ≡ true
  pub actor : is_object (property "actor" e) ≡ true
  pub privacy : is_object (property "privacy" e) ≡ true

first_invalid-none :
    (keys : List String) (e : Json)
    → (first_invalid keys e ≡ none) ↔ All (λ k. is_text (property k e) ≡ true) keys
unfolding first_invalid
first_invalid-none [] e = ((λ _. tt), (λ _. refl))
first_invalid-none (k ∷ keys) e = elim (Bool-cases (is_text (property k e))) [
  | inl t ↦
      rw t
        ((λ h. (refl, (first_invalid-none keys e).0 h)), (λ h. (first_invalid-none keys e).1 h.1))
  | inr t ↦ rw t ((λ h. absurd cc), (λ h. absurd (ground (arith, h.0))))
]

three_objects :
    (a b c : Bool) (l m n : String)
    → ((if not a then some l else if not b then some m else if not c then some n else none) ≡ none)
      ↔ ((a ≡ true) × (b ≡ true) × (c ≡ true))
three_objects true true true l m n = ((λ _. (refl, refl, refl)), (λ _. refl))
three_objects false b c l m n = ((λ h. absurd cc), (λ h. absurd (ground (arith, h.0))))
three_objects true false c l m n = ((λ h. absurd cc), (λ h. absurd (ground (arith, h.1))))
three_objects true true false l m n = ((λ h. absurd cc), (λ h. absurd (ground (arith, h.2))))

unthrown : (o : Option String) → (not (is_some o) ≡ true) ↔ (o ≡ none)
unthrown none = ((λ _. refl), (λ _. refl))
unthrown (some m) = ((λ h. absurd (ground (arith, h))), (λ h. absurd cc))

chain_none :
    (a b : Bool) (l m : String) (first rest : Option String)
    → ((if not a then some l else if not b then some m else first_of first rest) ≡ none)
      ↔ ((a ≡ true) × (b ≡ true) × (first ≡ none) × (rest ≡ none))
chain_none false b l m first rest = ((λ h. absurd cc), (λ h. absurd (ground (arith, h.0))))
chain_none true false l m first rest = ((λ h. absurd cc), (λ h. absurd (ground (arith, h.1))))
chain_none true true l m (some x) rest = ((λ h. absurd cc), (λ h. absurd cc))
chain_none true true l m none rest = ((λ h. (refl, refl, refl, h)), (λ h. h.3))

missing_object-none :
    (e : Json)
    → (missing_object e ≡ none) ↔ (
        (is_object (property "source" e) ≡ true)
        × (is_object (property "actor" e) ≡ true)
        × (is_object (property "privacy" e) ≡ true))
missing_object-none e =
    three_objects (is_object (property "source" e)) (is_object (property "actor" e))
      (is_object (property "privacy" e)) "Missing source" "Missing actor" "Missing privacy"

-- The guard lets a value through exactly if it is an object of the schema whose eight texts are there
-- and not empty and whose source, actor and privacy are objects.
pub is_qev_event_v1_iff : (e : Json) → (is_qev_event_v1 e ≡ true) ↔ IsGuarded e
unfolding is_qev_event_v1 assert_qev_event_v1
is_qev_event_v1_iff e =
    let o = first_invalid text_keys e in
    let thrown = unthrown (assert_qev_event_v1 e) in
    let chain =
      chain_none (is_object e) (is_schema (property "schema" e)) "Event must be an object"
        ("schema must be qev.event.v1, got " <> shown (property "schema" e)) o (missing_object e) in
    let texts = first_invalid-none text_keys e in
    let objects = missing_object-none e in
    (
      (λ h.
          let (object, schema, t, m) = chain.0 (thrown.0 h) in
          let (source, actor, privacy) = objects.0 m in
          record {
            object = object;
            schema = schema;
            texts = texts.0 t;
            source = source;
            actor = actor;
            privacy = privacy;
          }),
      (λ g. thrown.1 (
          chain.1 (g.object, g.schema, texts.1 g.texts, objects.1 (g.source, g.actor, g.privacy)))),
    )

outcome_given : (o : Outcome) → truthy (outcome_text o) ≡ true
outcome_given success = refl
outcome_given failure = refl
outcome_given pending = refl
outcome_given blocked = refl
outcome_given unknown = refl

-- An event passes the guard as its JSON object exactly if none of its seven own texts is empty.
pub event_json-is_qev_event_v1 :
    (e : QevEvent)
    → (is_qev_event_v1 (event_json e) ≡ true)
      ↔ All
          (λ s. truthy s ≡ true)
          (e.event_id ∷ e.occurred_at ∷ e.observed_at ∷ e.tenant_id ∷ e.flow_id ∷ e.case_id
            ∷ e.action ∷ [])
unfolding event_json get_field source actor privacy
event_json-is_qev_event_v1 e =
    let guard = is_qev_event_v1_iff (event_json e) in
    (
      (λ h.
          let (id, (occurred, (observed, (tenant, (flow, (case, (action, rest))))))) =
            (guard.0 h).texts in
          (id, (occurred, (observed, (tenant, (flow, (case, (action, tt)))))))),
      (λ h.
          let (id, (occurred, (observed, (tenant, (flow, (case, (action, rest))))))) = h in
          guard.1 (record {
            object = refl;
            schema = refl;
            texts = (
              id,
              (
                occurred,
                (observed, (tenant, (flow, (case, (action, (outcome_given e.outcome, tt)))))),
              ),
            );
            source = refl;
            actor = refl;
            privacy = refl;
          })),
    )
