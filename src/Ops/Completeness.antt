-- ===== src/Ops/Completeness.antt =====
-- packages/ops/src/completeness.ts: which required actions a case has.
use native.Mathlib.Nat.{div-lt_iff_lt-mul, le-div_iff_mul-le}
use mathlib.Core.List.{map-append}
use qev_platform.Base.{
  ℕ, ◌+◌, ◌-◌, ◌*◌, ◌/◌, ◌≤◌, ◌<◌, String, ◌≡◌, ◌↔◌, refl, Bool, true, not, ◌&&◌, ◌||◌, List, [],
  ◌∷◌, ◌++◌, arith, inl, inr, ◌<>◌, eqb, length, filter, contains, map, if◌then◌else◌, All,
  Bool-cases, All-map, contains-append, length-filter-le,
}
use qev_platform.Event.{QevEvent}
use qev_platform.Flow.{FlowPack}

pub record CompletenessReport : Type 0 where
  pub flow_id : String
  pub case_id : String
  pub required_total : ℕ
  pub required_present : ℕ
  pub required_missing : List String
  pub optional_present : List String
  pub optional_missing : List String
  pub complete_for_seal : Bool
  pub seal_allowed_in_shadow : Bool
  pub percent : ℕ
  pub messages : List String

-- xs.join(", ")
unfoldable pub join_list : List String → String
join_list [] = ""
join_list (x ∷ []) = x
join_list (x ∷ y ∷ ys) = x <> ", " <> join_list (y ∷ ys)

-- Math.round of a share of one hundred; a half is rounded up.
unfoldable pub percent_of : ℕ → ℕ → ℕ
percent_of part total = if eqb total 0 then 100 else (200 * part + total) / (2 * total)

abbrev pub actions_of : List QevEvent → List String
actions_of events = map (λ (e : QevEvent). e.action) events

unfoldable pub evaluate_completeness : List QevEvent → FlowPack → String → CompletenessReport
unfolding percent_of join_list
evaluate_completeness events pack case_id =
    let present = actions_of events in
    let required_missing = filter (λ a. not (contains present a)) pack.required_actions in
    let required_present = length pack.required_actions - length required_missing in
    let missing_message =
      if eqb (length required_missing) 0
      then "All required flow actions are present."
      else "Missing required evidence: " <> join_list required_missing in
    let scope_messages =
      if contains present "scope.changed" && not (contains present "change.approved")
      then "Scope was changed without change.approved — record this as a known gap." ∷ []
      else [] in
    record {
      flow_id = pack.id;
      case_id = case_id;
      required_total = length pack.required_actions;
      required_present = required_present;
      required_missing = required_missing;
      optional_present = filter (λ a. contains present a) pack.optional_actions;
      optional_missing = filter (λ a. not (contains present a)) pack.optional_actions;
      complete_for_seal = eqb (length required_missing) 0;
      seal_allowed_in_shadow = pack.seal_policy.allow_incomplete || eqb (length required_missing) 0;
      percent = percent_of required_present (length pack.required_actions);
      messages = missing_message ∷ scope_messages;
    }

whole : (part total : ℕ) → part ≡ total → 100 * (2 * total) ≤ 200 * part + total
whole part total e = omega arith

-- The rounded share is at most 100; it is 100 for the whole, and below 200 parts only for it.
percent_of_bounds :
    (part total : ℕ)
    → part ≤ total
    → (percent_of part total ≤ 100)
      × (part ≡ total → percent_of part total ≡ 100)
      × (total < 200 → percent_of part total ≡ 100 → part ≡ total)
unfolding percent_of
percent_of_bounds part total h = elim (Bool-cases (eqb total 0)) [
  | inl e ↦ rw e (
    omega arith,
    (λ _. refl),
    (λ _ _. let empty : total ≡ 0 = ground (arith, e) in omega (arith, empty)),
  )
  | inr e ↦
      let pos : 0 < 2 * total = ground (arith, e) in
      let below : (200 * part + total) / (2 * total) < 101 =
        (div-lt_iff_lt-mul pos).1 (omega (arith, pos)) in
      rw e (
        omega (arith, below),
        (λ all. omega (arith, below, (le-div_iff_mul-le pos).1 (whole part total all))),
        (λ few full.
            let enough : 100 * (2 * total) ≤ 200 * part + total =
              (le-div_iff_mul-le pos).0 (omega (arith, full)) in
            omega (arith, enough)),
      )
]

none_missing :
    (present required : List String)
    → eqb (length (filter (λ a. not (contains present a)) required)) 0 ≡ true
    → All (λ a. contains present a ≡ true) required
none_missing present [] h = tt
none_missing present (a ∷ required) h = elim (Bool-cases (contains present a)) [
  | inl e ↦ let rest = rw e at h in (e, none_missing present required rest)
  | inr e ↦ let some_missing = rw e at h in absurd (ground (arith, some_missing))
]

All-present :
    (present required : List String)
    → All (λ a. contains present a ≡ true) required
    → length (filter (λ a. not (contains present a)) required) ≡ 0
All-present present [] h = refl
All-present present (a ∷ required) h = rw (h.0) (All-present present required h.1)

pub missing-zero :
    (present required : List String)
    → (eqb (length (filter (λ a. not (contains present a)) required)) 0 ≡ true)
      ↔ All (λ a. contains present a ≡ true) required
missing-zero present required = (
  none_missing present required,
  λ h. let e = All-present present required h in ground (arith, e),
)

-- A case is complete for sealing exactly if each required action of the pack is the action of one of
-- its events, and then sealing is allowed in shadow mode. Present and missing actions add up to those
-- required. The percentage is at most 100; it is 100 for a complete case, and for a pack of fewer
-- than 200 required actions for no other.
pub completeness_lem :
    (events : List QevEvent) (pack : FlowPack) (case_id : String)
    → (((evaluate_completeness events pack case_id).complete_for_seal ≡ true)
        ↔ All (λ a. contains (actions_of events) a ≡ true) pack.required_actions)
      × ((evaluate_completeness events pack case_id).complete_for_seal ≡ true
          → (evaluate_completeness events pack case_id).seal_allowed_in_shadow ≡ true)
      × ((evaluate_completeness events pack case_id).required_present
            + length (evaluate_completeness events pack case_id).required_missing
          ≡ length pack.required_actions)
      × ((evaluate_completeness events pack case_id).percent ≤ 100)
      × ((evaluate_completeness events pack case_id).complete_for_seal ≡ true
          → (evaluate_completeness events pack case_id).percent ≡ 100)
      × (length pack.required_actions < 200
          → (evaluate_completeness events pack case_id).percent ≡ 100
          → (evaluate_completeness events pack case_id).complete_for_seal ≡ true)
unfolding evaluate_completeness
completeness_lem events pack case_id =
    let present = actions_of events in
    let missing = filter (λ a. not (contains present a)) pack.required_actions in
    let fewer = length-filter-le (λ a. not (contains present a)) pack.required_actions in
    let bounds =
      percent_of_bounds (length pack.required_actions - length missing)
        (length pack.required_actions) (omega arith) in
    (
      missing-zero present pack.required_actions,
      (λ h. rw h (ground arith)),
      omega (arith, fewer),
      bounds.0,
      (λ h. bounds.1 (let e : length missing ≡ 0 = ground (arith, h) in omega (arith, e))),
      (λ few full.
          let e : length missing ≡ 0 = omega (arith, fewer, bounds.2 few full) in
          ground (arith, e)),
    )

actions-append :
    (events more : List QevEvent) (a : String)
    → contains (actions_of (events ++ more)) a
      ≡ (contains (actions_of events) a || contains (actions_of more) a)
actions-append events more a =
    rw (map-append (λ (e : QevEvent). e.action) events more) (contains-append _ (actions_of more) a)

-- Further events never make a complete case incomplete.
pub completeness_mono :
    (events more : List QevEvent) (pack : FlowPack) (case_id : String)
    → (evaluate_completeness events pack case_id).complete_for_seal ≡ true
    → (evaluate_completeness (events ++ more) pack case_id).complete_for_seal ≡ true
completeness_mono events more pack case_id h =
    (completeness_lem (events ++ more) pack case_id).0.1 (
      All-map {P = λ a. contains (actions_of events) a ≡ true}
        {Q = λ a. contains (actions_of (events ++ more)) a ≡ true}
        (λ a e. rw (actions-append events more a, e)) pack.required_actions
        ((completeness_lem events pack case_id).0.0 h))
