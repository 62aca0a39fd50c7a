-- ===== src/Gateway/Store/Consistent.antt =====
-- apps/gateway/src/store.ts: the map by id against the lists of the cases.
use qev_platform.Base.{
  String, ◌==◌, eq_iff, eq_refl, ◌≡◌, refl, sym, ◌∙◌, true, false, ◌||◌, ◌⊎◌, or_cases, none, some,
  List, [], ◌∷◌, ◌++◌, if◌then◌else◌, or_else, contains, contains-append, Bool-cases, Option-cases,
  inl, inr, lookup, lookup-insert, arith,
}
use qev_platform.Gateway.Store.{StoredEvent, GatewayStore, key_of, has_event, case_ids, add_row}

abbrev pub IsDistinct : List String → Type 0
IsDistinct [] = Unit
IsDistinct (x ∷ xs) = (contains xs x ≡ false) × IsDistinct xs

-- Each event found by its id is listed in its case and is the event with that id, each listed id is that
-- of an event of the case, and no case lists an id twice.
pub record IsConsistent (s : GatewayStore) : Type 0 where
  pub keyed :
      (id : String) (row : StoredEvent)
      → lookup id s.events_by_id ≡ some row
      → row.event.event_id ≡ id
  pub listed :
      (id : String) (row : StoredEvent)
      → lookup id s.events_by_id ≡ some row
      → contains (case_ids (key_of row) s) id ≡ true
  pub known :
      (key id : String)
      → contains (case_ids key s) id ≡ true
      → (row : StoredEvent) × (lookup id s.events_by_id ≡ some row) × (key_of row ≡ key)
  pub once : (key : String) → IsDistinct (case_ids key s)

IsDistinct-add :
    (xs : List String) (a : String)
    → IsDistinct xs
    → contains xs a ≡ false
    → IsDistinct (xs ++ a ∷ [])
IsDistinct-add [] a d n = (refl, tt)
IsDistinct-add (x ∷ xs) a d n = (
  ground (arith, contains-append xs (a ∷ []) x, d.0, n, eq_iff x a, eq_iff a x),
  IsDistinct-add xs a d.1 (ground (arith, n)),
)

pub absent :
    (id : String) (s : GatewayStore) → has_event id s ≡ false → lookup id s.events_by_id ≡ none
unfolding has_event
absent id s h = elim (Option-cases (lookup id s.events_by_id)) [
  | inl e ↦ e
  | inr (row, e) ↦ let clash : true ≡ false = rw e at h in cc
]

pub case_ids-add_row :
    (row : StoredEvent) (s : GatewayStore) (key : String)
    → case_ids key (add_row row s) ≡ (
        if key_of row == key
        then case_ids (key_of row) s ++ row.event.event_id ∷ []
        else case_ids key s)
unfolding case_ids add_row
case_ids-add_row row s key =
    rw
      (lookup-insert (key_of row) key
        (or_else (lookup (key_of row) s.events_by_case) [] ++ row.event.event_id ∷ [])
        s.events_by_case)
      (elim (Bool-cases (key_of row == key)) [ inl e ↦ rw e refl | inr e ↦ rw e refl ])

pub lookup-add_row :
    (row : StoredEvent) (s : GatewayStore) (id : String)
    → lookup id (add_row row s).events_by_id
      ≡ (if row.event.event_id == id then some row else lookup id s.events_by_id)
unfolding add_row
lookup-add_row row s id = lookup-insert row.event.event_id id row s.events_by_id

pub not_listed :
    (s : GatewayStore) (id key : String)
    → IsConsistent s
    → lookup id s.events_by_id ≡ none
    → contains (case_ids key s) id ≡ false
not_listed s id key c e = elim (Bool-cases (contains (case_ids key s) id)) [
  | inl l ↦ let (row, at, _) = c.known key id l in let clash : none ≡ some row = sym e ∙ at in cc
  | inr l ↦ l
]

module _ (row : StoredEvent) (s : GatewayStore) (c : IsConsistent s)
    (new : lookup row.event.event_id s.events_by_id ≡ none) where
  add_row-keyed :
      (id : String) (r : StoredEvent)
      → lookup id (add_row row s).events_by_id ≡ some r
      → r.event.event_id ≡ id
  add_row-keyed id r h = elim (Bool-cases (row.event.event_id == id)) [
    | inl e ↦
        let found : some row ≡ some r = rw (lookup-add_row row s id, e) at h in
        let same : row ≡ r = cc in rw (← same) ((eq_iff row.event.event_id id).0 e)
    | inr e ↦ c.keyed id r (rw (lookup-add_row row s id, e) at h)
  ]

  add_row-listed :
      (id : String) (r : StoredEvent)
      → lookup id (add_row row s).events_by_id ≡ some r
      → contains (case_ids (key_of r) (add_row row s)) id ≡ true
  add_row-listed id r h = elim (Bool-cases (row.event.event_id == id)) [
    | inl e ↦
        let found : some row ≡ some r = rw (lookup-add_row row s id, e) at h in
        let same : row ≡ r = cc in
        rw
          (
            ← same,
            case_ids-add_row row s (key_of row),
            eq_refl (key_of row),
            contains-append (case_ids (key_of row) s) (row.event.event_id ∷ []) id,
            e,
          )
          (ground arith)
    | inr e ↦
        let old = c.listed id r (rw (lookup-add_row row s id, e) at h) in
        rw (case_ids-add_row row s (key_of r)) (elim (Bool-cases (key_of row == key_of r)) [
          | inl k ↦
              rw
                (
                  k,
                  (eq_iff (key_of row) (key_of r)).0 k,
                  contains-append (case_ids (key_of r) s) (row.event.event_id ∷ []) id,
                  old,
                )
                refl
          | inr k ↦ rw k old
        ])
  ]

  -- What a case of the new store lists is what it listed, or the new event in its own case.
  listed-cases :
      (key id : String)
      → contains (case_ids key (add_row row s)) id ≡ true
      → ((row.event.event_id == id) ≡ true × (key_of row ≡ key))
        ⊎ (contains (case_ids key s) id ≡ true)
  listed-cases key id h = elim (Bool-cases (key_of row == key)) [
    | inl k ↦
        let same = (eq_iff (key_of row) key).0 k in
        let either : (contains (case_ids (key_of row) s) id || (row.event.event_id == id || false))
            ≡ true =
          rw
            (
              case_ids-add_row row s key,
              k,
              contains-append (case_ids (key_of row) s) (row.event.event_id ∷ []) id,
            )
            at h in
        elim (or_cases (contains (case_ids (key_of row) s) id) (row.event.event_id == id || false)
          either) [ inl l ↦ inr (rw (← same) l) | inr l ↦ inl (ground (arith, l), same) ]
    | inr k ↦ inr (rw (case_ids-add_row row s key, k) at h)
  ]

  add_row-known :
      (key id : String)
      → contains (case_ids key (add_row row s)) id ≡ true
      → (r : StoredEvent) × (lookup id (add_row row s).events_by_id ≡ some r) × (key_of r ≡ key)
  add_row-known key id h = elim (listed-cases key id h) [
    | inl (e, k) ↦ (row, rw (lookup-add_row row s id, e) refl, k)
    | inr l ↦
        let (r, at, k) = c.known key id l in
        elim (Bool-cases (row.event.event_id == id)) [
          | inl e ↦
              let clash : none ≡ some r = sym new ∙ rw ((eq_iff row.event.event_id id).0 e) at in cc
          | inr e ↦ (r, rw (lookup-add_row row s id, e) at, k)
        ]
  ]

  add_row-once : (key : String) → IsDistinct (case_ids key (add_row row s))
  add_row-once key = rw (case_ids-add_row row s key) (elim (Bool-cases (key_of row == key)) [
    | inl k ↦ rw k (
        IsDistinct-add (case_ids (key_of row) s) row.event.event_id (c.once (key_of row))
          (not_listed s row.event.event_id (key_of row) c new))
    | inr k ↦ rw k (c.once key)
  ])

  pub add_row-IsConsistent : IsConsistent (add_row row s)
  add_row-IsConsistent = record {
    keyed = add_row-keyed;
    listed = add_row-listed;
    known = add_row-known;
    once = add_row-once;
  }

-- The invariant is about the two maps of events only.
pub IsConsistent-by :
    (s t : GatewayStore)
    → s.events_by_id ≡ t.events_by_id
    → s.events_by_case ≡ t.events_by_case
    → IsConsistent s
    → IsConsistent t
unfolding case_ids
IsConsistent-by s t i k c = record {
  keyed = λ id row h. c.keyed id row (rw i h);
  listed = λ id row h. rw (← k) (c.listed id row (rw i h));
  known = λ key id h. rw (← i) (c.known key id (rw k h));
  once = λ key. rw (← k) (c.once key);
}
