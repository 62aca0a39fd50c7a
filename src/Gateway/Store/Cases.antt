-- ===== src/Gateway/Store/Cases.antt =====
-- apps/gateway/src/store.ts: what putEvent does to the event, its case and the other cases.
use qev_platform.Base.{
  String, ◌==◌, eq_iff, eq_refl, ◌≡◌, refl, sym, ◌∙◌, ap, true, false, none, some, List, [], ◌∷◌,
  ◌++◌, if◌then◌else◌, contains, Bool-cases, Option-cases, inl, inr, lookup, insert, arith,
}
use qev_platform.Event.{QevEvent}
use qev_platform.Policy.{PolicyDecision}
use qev_platform.Gateway.Store.{
  StoredEvent, GatewayStore, key_of, case_key, has_event, get_event, rows_of, get_case, case_ids,
  add_row, storage_id, put_event, PutResult, invalid, duplicate, stored,
}
use qev_platform.Gateway.Store.Consistent.{
  IsConsistent, IsConsistent-by, add_row-IsConsistent, absent, not_listed, case_ids-add_row,
  lookup-add_row,
}

abbrev pub row_of : QevEvent → PolicyDecision → StoredEvent
row_of event decision = record { event = event; decision = decision }

pub put_event-stored :
    (event : QevEvent) (decision : PolicyDecision) (s t : GatewayStore)
    → put_event event decision s ≡ stored t
    → (storage_id event.event_id ≡ true)
      × (has_event event.event_id s ≡ false)
      × (t ≡ record (add_row (row_of event decision) s) {
        event_files = insert event.event_id (row_of event decision) s.event_files;
      })
unfolding put_event
put_event-stored event decision s t h = elim (Bool-cases (storage_id event.event_id)) [
  | inr bad ↦ let clash : ◌≡◌ {A = PutResult} invalid (stored t) = rw bad at h in cc
  | inl ok ↦ elim (Bool-cases (has_event event.event_id s)) [
    | inl old ↦ let clash : ◌≡◌ {A = PutResult} duplicate (stored t) = rw (ok, old) at h in cc
    | inr new ↦
        let made : stored (record (add_row (row_of event decision) s) {
          event_files = insert event.event_id (row_of event decision) s.event_files;
        })
            ≡ stored t =
          rw (ok, new) at h in
        (ok, new, cc)
  ]
]

-- When an event is stored, consistent maps stay consistent.
pub put_event-IsConsistent :
    (event : QevEvent) (decision : PolicyDecision) (s t : GatewayStore)
    → IsConsistent s
    → put_event event decision s ≡ stored t
    → IsConsistent t
put_event-IsConsistent event decision s t c h =
    let (ok, new, e) = put_event-stored event decision s t h in
    let row : StoredEvent = row_of event decision in
    rw e (
      IsConsistent-by (add_row row s) _ refl refl
        (add_row-IsConsistent row s c (absent event.event_id s new)))

rows_of-same :
    (s t : GatewayStore) (ids : List String)
    → ((id : String) → contains ids id ≡ true → lookup id t.events_by_id ≡ lookup id s.events_by_id)
    → rows_of t ids ≡ rows_of s ids
unfolding rows_of
rows_of-same s t [] h = refl
rows_of-same s t (id ∷ ids) h =
    rw (h id (rw (eq_refl id) refl), rows_of-same s t ids (λ j k. h j (ground (arith, k)))) refl

rows_of-append :
    (s : GatewayStore) (xs ys : List String) → rows_of s (xs ++ ys) ≡ rows_of s xs ++ rows_of s ys
unfolding rows_of
rows_of-append s [] ys = refl
rows_of-append s (x ∷ xs) ys = elim (Option-cases (lookup x s.events_by_id)) [
  | inl e ↦ rw e (rows_of-append s xs ys)
  | inr (row, e) ↦ rw e (ap (λ z. row ∷ z) (rows_of-append s xs ys))
]

-- The rows of ids that the store lists are not changed by a new row.
rows_of-listed :
    (row : StoredEvent) (s : GatewayStore) (key : String)
    → IsConsistent s
    → lookup row.event.event_id s.events_by_id ≡ none
    → rows_of (add_row row s) (case_ids key s) ≡ rows_of s (case_ids key s)
rows_of-listed row s key c new = rows_of-same s (add_row row s) (case_ids key s) (λ id l.
    elim (Bool-cases (row.event.event_id == id)) [
      | inl e ↦
          let clash : true ≡ false =
            sym l
            ∙ rw ((eq_iff row.event.event_id id).0 e) at
                (not_listed s row.event.event_id key c new) in
          absurd (ground (arith, clash))
      | inr e ↦ rw (lookup-add_row row s id, e) refl
    ])

rows_of-new :
    (row : StoredEvent) (s : GatewayStore)
    → rows_of (add_row row s) (row.event.event_id ∷ []) ≡ row ∷ []
unfolding rows_of
rows_of-new row s = rw (lookup-add_row row s row.event.event_id, eq_refl row.event.event_id) refl

append-none : (xs : List StoredEvent) → xs ++ [] ≡ xs
append-none [] = refl
append-none (x ∷ xs) = ap (λ z. x ∷ z) (append-none xs)

add_row-rows :
    (row : StoredEvent) (s : GatewayStore) (key : String)
    → IsConsistent s
    → lookup row.event.event_id s.events_by_id ≡ none
    → rows_of (add_row row s) (case_ids key (add_row row s))
      ≡ (rows_of s (case_ids key s) ++ (if key_of row == key then row ∷ [] else []))
add_row-rows row s key c new = elim (Bool-cases (key_of row == key)) [
  | inl k ↦
      let same = (eq_iff (key_of row) key).0 k in
      rw
        (
          case_ids-add_row row s key,
          k,
          same,
          rows_of-append (add_row row s) (case_ids key s) (row.event.event_id ∷ []),
          rows_of-listed row s key c new,
          rows_of-new row s,
        )
        refl
  | inr k ↦
      rw (case_ids-add_row row s key, k)
        (rows_of-listed row s key c new ∙ sym (append-none (rows_of s (case_ids key s))))
]

-- In a consistent store, storing an event makes it found by its id, appends it to its case, leaves all other events and cases as
-- they were, and is refused as a duplicate when it is tried again.
pub put_event-get_case :
    (event : QevEvent) (decision : PolicyDecision) (s t : GatewayStore)
    → IsConsistent s
    → put_event event decision s ≡ stored t
    → ((id : String)
        → get_event id t
          ≡ (if event.event_id == id then some (row_of event decision) else get_event id s))
      × ((flow_id case_id : String)
          → get_case flow_id case_id t ≡ (
              get_case flow_id case_id s
              ++ (if key_of (row_of event decision) == case_key flow_id case_id
                  then row_of event decision ∷ []
                  else [])))
      × ((again : PolicyDecision) → put_event event again t ≡ duplicate)
unfolding get_case put_event has_event rows_of case_ids
put_event-get_case event decision s t c h =
    let (ok, new, e) = put_event-stored event decision s t h in
    let row = row_of event decision in
    let none_yet = absent event.event_id s new in
    (
      (λ id. rw e (lookup-add_row row s id)),
      (λ flow_id case_id. rw e (add_row-rows row s (case_key flow_id case_id) c none_yet)),
      (λ again. rw (e, ok, lookup-add_row row s event.event_id, eq_refl event.event_id) refl),
    )
