-- ===== src/Gateway/Sealing/Complete.antt =====
-- apps/gateway/src/server.ts, sealCase: the events of the case after a seal.
use mathlib.Core.Path.{subst}
use qev_platform.Base.{
  String, eq_refl, ◌≡◌, refl, Bool, true, false, not, ◌||◌, Option, none, some, List, [], ◌∷◌, ◌++◌,
  if◌then◌else◌, Bool-cases, inl, inr, All, All-map, filter, contains, distinct, contains-append,
  contains-distinct, arith,
}
use qev_platform.Bundle.Build.{event_ids}
use qev_platform.Gateway.Store.{
  StoredEvent, CaseSealRecord, PackageKind, primary, supplemental, Package, GatewayStore, case_ids,
  rows_of, get_case, get_seal_record, unsealed_events, load_package,
}
use qev_platform.Gateway.Sealing.Parts.{
  Settings, Gateway, SealAnswer, sealed, Platform, events_of, mark_case, next_record, sealed_before,
}
use qev_platform.Gateway.Sealing.{
  reloaded, seal_supplement, seal_primary, seal_by, seal_known, seal_case, with_store,
}
use qev_platform.Gateway.Sealing.Recorded.{IsRecorded, seal_rows-Records}

-- The ids that a row has to be among.
abbrev Covered : (old ids : List String) → StoredEvent → Type 0
Covered old ids r = (contains old r.event.event_id || contains ids r.event.event_id) ≡ true

Covered-more :
    (old ids : List String) (a : String) (r : StoredEvent)
    → Covered old ids r
    → Covered old (a ∷ ids) r
Covered-more old ids a r h = ground (arith, h)

All-Covered :
    (old : List String) (rows : List StoredEvent)
    → All (Covered old (event_ids (events_of rows))) rows
All-Covered old [] = tt
All-Covered old (r ∷ rows) = (
  ground (arith, eq_refl r.event.event_id),
  All-map (Covered-more old (event_ids (events_of rows)) r.event.event_id) rows
      (All-Covered old rows),
)

abbrev left_over : List String → List StoredEvent → List StoredEvent
left_over old rows = filter (λ (r : StoredEvent). not (contains old r.event.event_id)) rows

left_over-Covered :
    (old : List String) (rows : List StoredEvent)
    → All (Covered old (event_ids (events_of (left_over old rows)))) rows
left_over-Covered old [] = tt
left_over-Covered old (r ∷ rows) = elim (Bool-cases (contains old r.event.event_id)) [
  | inl e ↦
      let skipped : left_over old rows ≡ left_over old (r ∷ rows) = rw e refl in
      subst (λ xs. All (Covered old (event_ids (events_of xs))) (r ∷ rows)) skipped
        (rw e refl, left_over-Covered old rows)
  | inr e ↦
      let kept : r ∷ left_over old rows ≡ left_over old (r ∷ rows) = rw e refl in
      subst (λ xs. All (Covered old (event_ids (events_of xs))) (r ∷ rows)) kept
        (
          ground (arith, eq_refl r.event.event_id),
          All-map (Covered-more old (event_ids (events_of (left_over old rows))) r.event.event_id)
              rows (left_over-Covered old rows),
        )
]

left_over-none :
    (old ids : List String) (rows : List StoredEvent)
    → All (Covered old ids) rows
    → left_over (distinct (old ++ ids)) rows ≡ []
left_over-none old ids [] h = refl
left_over-none old ids (r ∷ rows) h =
    rw
      (
        contains-distinct (old ++ ids) r.event.event_id,
        contains-append old ids r.event.event_id,
        h.0,
      )
      (left_over-none old ids rows h.1)

same_case :
    (flow_id case_id : String) (s t : GatewayStore)
    → t.events_by_id ≡ s.events_by_id
    → t.events_by_case ≡ s.events_by_case
    → get_case flow_id case_id t ≡ get_case flow_id case_id s
unfolding get_case rows_of case_ids
same_case flow_id case_id s t events cases = rw (events, cases) refl

-- With such a record, no event of the case is unsealed if the record covers the rows.
unsealed-none :
    (flow_id case_id : String) (existing : Option CaseSealRecord) (ids old : List String)
    (s t : GatewayStore)
    → IsRecorded flow_id case_id existing ids s t
    → sealed_before existing ≡ old
    → All (Covered old ids) (get_case flow_id case_id s)
    → unsealed_events flow_id case_id t ≡ []
unfolding unsealed_events next_record
unsealed-none flow_id case_id existing ids old s t h before covered =
    rw (unsealed_events, h.at, same_case flow_id case_id s t h.events h.cases, before)
      (left_over-none old ids (get_case flow_id case_id s) covered)

reloaded_not :
    (kind : PackageKind) (pkg : Package) (g : Gateway) (o : Option (Option Package × GatewayStore))
    → ¬ ((reloaded g o).0 ≡ sealed kind pkg)
reloaded_not kind pkg g none e = cc
reloaded_not kind pkg g (some (none, t)) e = cc
reloaded_not kind pkg g (some (some p, t)) e = cc

module _ (platform : Platform) (settings : Settings) (passphrase flow_id case_id : String)
    (g : Gateway) (kind : PackageKind) (pkg : Package) where
  primary-unsealed :
      (existing : Option CaseSealRecord) (rows : List StoredEvent)
      → (seal_primary platform settings passphrase flow_id case_id existing rows g).0
        ≡ sealed kind pkg
      → unsealed_events flow_id case_id
          (seal_primary platform settings passphrase flow_id case_id existing rows g).1.store
        ≡ []
  unfolding seal_primary
  primary-unsealed existing rows h =
      let marked = mark_case flow_id rows g.store in
      let all = get_case flow_id case_id marked in
      unsealed-none flow_id case_id existing (event_ids (events_of all)) (sealed_before existing)
        marked _
        (seal_rows-Records platform settings passphrase flow_id case_id existing primary all
          (with_store g marked) kind pkg h)
        refl (All-Covered (sealed_before existing) all)

  supplement-unsealed :
      (rec : CaseSealRecord) (rows : List StoredEvent)
      → left_over rec.sealed_event_ids (get_case flow_id case_id g.store) ≡ rows
      → (seal_supplement platform settings passphrase flow_id case_id rec rows g).0
        ≡ sealed kind pkg
      → unsealed_events flow_id case_id
          (seal_supplement platform settings passphrase flow_id case_id rec rows g).1.store
        ≡ []
  unfolding seal_supplement
  supplement-unsealed rec [] e h =
      absurd (reloaded_not kind pkg g (load_package rec.primary_package_id g.store) h)
  supplement-unsealed rec (r ∷ rows) e h =
      unsealed-none flow_id case_id (some rec) (event_ids (events_of (r ∷ rows)))
        rec.sealed_event_ids g.store _
        (seal_rows-Records platform settings passphrase flow_id case_id (some rec) supplemental
          (r ∷ rows) g kind pkg h)
        refl
        (subst
          (λ xs.
            All (Covered rec.sealed_event_ids (event_ids (events_of xs)))
              (get_case flow_id case_id g.store))
          e (left_over-Covered rec.sealed_event_ids (get_case flow_id case_id g.store)))

  if-unsealed :
      (b : Bool) (x y : SealAnswer × Gateway)
      → (x.0 ≡ sealed kind pkg → unsealed_events flow_id case_id x.1.store ≡ [])
      → (y.0 ≡ sealed kind pkg → unsealed_events flow_id case_id y.1.store ≡ [])
      → (if b then x else y).0 ≡ sealed kind pkg
      → unsealed_events flow_id case_id (if b then x else y).1.store ≡ []
  if-unsealed true x y h k e = h e
  if-unsealed false x y h k e = k e

  by-unsealed :
      (o : Option CaseSealRecord) (rows : List StoredEvent)
      → get_seal_record flow_id case_id g.store ≡ o
      → (seal_by platform settings passphrase flow_id case_id o rows g).0 ≡ sealed kind pkg
      → unsealed_events flow_id case_id
          (seal_by platform settings passphrase flow_id case_id o rows g).1.store
        ≡ []
  unfolding seal_by
  by-unsealed none rows e h = primary-unsealed none rows h
  by-unsealed (some rec) rows e h =
      if-unsealed settings.supplemental_packages _ _
        (supplement-unsealed rec (unsealed_events flow_id case_id g.store)
          (rw (unsealed_events, e) refl))
        (primary-unsealed (some rec) rows) h

  known-unsealed :
      (rows : List StoredEvent)
      → (seal_known platform settings passphrase flow_id case_id rows g).0 ≡ sealed kind pkg
      → unsealed_events flow_id case_id
          (seal_known platform settings passphrase flow_id case_id rows g).1.store
        ≡ []
  unfolding seal_known
  known-unsealed [] h = cc
  known-unsealed (r ∷ rows) h =
      by-unsealed (get_seal_record flow_id case_id g.store) (r ∷ rows) refl h

-- After a seal that succeeds, primary or supplemental, the case has no event that is not sealed.
pub seal_case-unsealed_events :
    (platform : Platform) (settings : Settings) (passphrase flow_id case_id : String) (g : Gateway)
    (kind : PackageKind) (pkg : Package)
    → (seal_case platform settings passphrase flow_id case_id g).0 ≡ sealed kind pkg
    → unsealed_events flow_id case_id
        (seal_case platform settings passphrase flow_id case_id g).1.store
      ≡ []
unfolding seal_case
seal_case-unsealed_events platform settings passphrase flow_id case_id g kind pkg h =
    known-unsealed platform settings passphrase flow_id case_id g kind pkg
      (get_case flow_id case_id g.store) h
