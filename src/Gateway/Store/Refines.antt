-- ===== src/Gateway/Store/Refines.antt =====
-- apps/gateway/src/store.ts: the store, with its files and its restarts, against the ledger.
use mathlib.Core.Path.{subst}
use qev_platform.Base.{
  String, ◌==◌, ◌≡◌, refl, sym, ap, ◌∙◌, true, false, Option, none, some, List, [], ◌∷◌, is_some,
  contains, insert, ◌⊎◌, eq_iff, Bool-cases, inl, inr, Assoc, lookup, lookup-insert, arith,
}
use qev_platform.Event.{QevEvent}
use qev_platform.Policy.{PolicyDecision}
use qev_platform.Gateway.Store.{
  storage_id, StoredEvent, GatewayStore, case_key, key_of, case_ids, has_event, get_event, add_row,
  stored, put_event, load_rows, init, record_seal,
}
use qev_platform.Gateway.Store.Consistent.{
  IsConsistent, IsConsistent-by, add_row-IsConsistent, absent, lookup-add_row,
}
use qev_platform.Gateway.Store.Cases.{row_of}
use qev_platform.Gateway.Store.Reload.{IsNamed, init-lookup, init-IsConsistent}
use qev_platform.Gateway.Sealing.Parts.{note_gaps}
use qev_platform.Gateway.Store.Ledger.{
  Ledger, StoreOp, puts, notes, restarts, unless_known, noted, replay_op, replay, after_put, Step,
  put_step, seal_step, note_step, restart_step, Steps, finished, next, Reads,
}

abbrev added : QevEvent → PolicyDecision → GatewayStore → GatewayStore
added event decision s = record (add_row (row_of event decision) s) {
  event_files = insert event.event_id (row_of event decision) s.event_files;
}

-- What becomes of a store when an event is given to it.
put-cases :
    (event : QevEvent) (decision : PolicyDecision) (s : GatewayStore)
    → ((storage_id event.event_id ≡ false) × (after_put (put_event event decision s) s ≡ s))
      ⊎ (((storage_id event.event_id ≡ true)
            × (has_event event.event_id s ≡ true)
            × (after_put (put_event event decision s) s ≡ s))
          ⊎ ((storage_id event.event_id ≡ true)
              × (has_event event.event_id s ≡ false)
              × (put_event event decision s ≡ stored (added event decision s))))
unfolding put_event
put-cases event decision s = elim (Bool-cases (storage_id event.event_id)) [
  | inr bad ↦ inl (bad, rw bad refl)
  | inl ok ↦ elim (Bool-cases (has_event event.event_id s)) [
    | inl old ↦ inr (inl (ok, old, rw (ok, old) refl))
    | inr new ↦ inr (inr (ok, new, rw (ok, new) refl))
  ]
]

known :
    (o l : Option StoredEvent) (old new : Option StoredEvent)
    → is_some o ≡ true
    → o ≡ l
    → old ≡ unless_known l old new
known (some r) l old new h e = rw (← e) refl
known none l old new h e = absurd (ground (arith, h))

fresh :
    (o l old : Option StoredEvent) (new : StoredEvent)
    → o ≡ none
    → o ≡ l
    → some new ≡ unless_known l old (some new)
fresh o l old new h e = rw (← e, h) refl

module _ (event : QevEvent) (decision : PolicyDecision) (s : GatewayStore) (l : Ledger)
    (r : Reads s l) where
  put-current :
      (id : String)
      → get_event id (after_put (put_event event decision s) s)
        ≡ (replay_op (puts event decision) l).current id
  unfolding replay_op has_event
  put-current id = elim (put-cases event decision s) [
    | inl (bad, same) ↦ rw (same, bad) (r.current id)
    | inr (inl (ok, old, same)) ↦ elim (Bool-cases (event.event_id == id)) [
      | inl e ↦
          let there : is_some (get_event id s) ≡ true =
            rw ((eq_iff event.event_id id).0 e) at old in
          rw (same, ok, e)
            (r.current id
              ∙ known (get_event id s) (l.current id) (l.current id) (some (row_of event decision))
                  there (r.current id))
      | inr e ↦ rw (same, ok, e) (r.current id)
    ]
    | inr (inr (ok, new, made)) ↦
        rw (made, lookup-add_row (row_of event decision) s id, ok)
          (elim (Bool-cases (event.event_id == id)) [
            | inl e ↦
                let gone = absent event.event_id s new in
                rw e (
                  fresh (get_event id s) (l.current id) (l.current id) (row_of event decision)
                    (rw (← (eq_iff event.event_id id).0 e) gone) (r.current id))
            | inr e ↦ rw e (r.current id)
          ])
  ]

  put-kept :
      (id : String)
      → lookup id (after_put (put_event event decision s) s).event_files
        ≡ (replay_op (puts event decision) l).kept id
  unfolding replay_op has_event
  put-kept id = elim (put-cases event decision s) [
    | inl (bad, same) ↦ rw (same, bad) (r.kept id)
    | inr (inl (ok, old, same)) ↦ elim (Bool-cases (event.event_id == id)) [
      | inl e ↦
          let there : is_some (get_event id s) ≡ true =
            rw ((eq_iff event.event_id id).0 e) at old in
          rw (same, ok, e)
            (r.kept id
              ∙ known (get_event id s) (l.current id) (l.kept id) (some (row_of event decision))
                  there (r.current id))
      | inr e ↦ rw (same, ok, e) (r.kept id)
    ]
    | inr (inr (ok, new, made)) ↦
        rw (made, lookup-insert event.event_id id (row_of event decision) s.event_files, ok)
          (elim (Bool-cases (event.event_id == id)) [
            | inl e ↦
                let gone = absent event.event_id s new in
                rw e (
                  fresh (get_event id s) (l.current id) (l.kept id) (row_of event decision)
                    (rw (← (eq_iff event.event_id id).0 e) gone) (r.current id))
            | inr e ↦ rw e (r.kept id)
          ])
  ]

  put-seals :
      ((after_put (put_event event decision s) s).seals_by_case ≡ s.seals_by_case)
      × ((after_put (put_event event decision s) s).seals_file ≡ s.seals_file)
  unfolding add_row
  put-seals = elim (put-cases event decision s) [
    | inl (bad, same) ↦ rw same (refl, refl)
    | inr (inl (ok, old, same)) ↦ rw same (refl, refl)
    | inr (inr (ok, new, made)) ↦ rw made (refl, refl)
  ]

  put-IsConsistent : IsConsistent (after_put (put_event event decision s) s)
  put-IsConsistent = elim (put-cases event decision s) [
    | inl (bad, same) ↦ rw same r.cases
    | inr (inl (ok, old, same)) ↦ rw same r.cases
    | inr (inr (ok, new, made)) ↦
        let row = row_of event decision in
        rw made (
          IsConsistent-by (add_row row s) (added event decision s) refl refl
            (add_row-IsConsistent row s r.cases (absent event.event_id s new)))
  ]

  put-Reads : Reads (after_put (put_event event decision s) s) (replay_op (puts event decision) l)
  unfolding replay_op
  put-Reads = record {
    current = put-current;
    kept = put-kept;
    seals = λ key. rw put-seals.0 (r.seals key);
    seals_kept = rw (put-seals.0, put-seals.1) r.seals_kept;
    cases = put-IsConsistent;
  }

-- The noted event is one of the same case under the same identifier.
note-IsConsistent :
    (missing : List String) (last : StoredEvent) (s : GatewayStore)
    → get_event last.event.event_id s ≡ some last
    → IsConsistent s
    → IsConsistent (note_gaps missing last s)
unfolding note_gaps case_ids
note-IsConsistent missing last s there c = record {
  keyed = λ id row h. elim (Bool-cases (last.event.event_id == id)) [
    | inl e ↦
        let at : some (noted missing last) ≡ some row =
          rw (lookup-insert last.event.event_id id (noted missing last) s.events_by_id, e) at h in
        let same : noted missing last ≡ row = cc in
        sym (ap (λ (x : StoredEvent). x.event.event_id) same) ∙ (eq_iff last.event.event_id id).0 e
    | inr e ↦
        c.keyed id row
          (rw (lookup-insert last.event.event_id id (noted missing last) s.events_by_id, e) at h)
  ];
  listed = λ id row h. elim (Bool-cases (last.event.event_id == id)) [
    | inl e ↦
        let at : some (noted missing last) ≡ some row =
          rw (lookup-insert last.event.event_id id (noted missing last) s.events_by_id, e) at h in
        let same : noted missing last ≡ row = cc in
        let one = (eq_iff last.event.event_id id).0 e in
        let found : lookup id s.events_by_id ≡ some last = rw (← one) there in
        subst (λ (x : StoredEvent). contains (case_ids (key_of x) s) id ≡ true) same
          (c.listed id last found)
    | inr e ↦
        c.listed id row
          (rw (lookup-insert last.event.event_id id (noted missing last) s.events_by_id, e) at h)
  ];
  known = λ key id h.
      let (row, at, case) = c.known key id h in
      elim (Bool-cases (last.event.event_id == id)) [
        | inl e ↦
            let one = (eq_iff last.event.event_id id).0 e in
            let found : lookup id s.events_by_id ≡ some last = rw (← one) there in
            let both : some last ≡ some row = sym found ∙ at in
            let same : last ≡ row = cc in
            (
              noted missing last,
              rw (lookup-insert last.event.event_id id (noted missing last) s.events_by_id, e) refl,
              ap key_of same ∙ case,
            )
        | inr e ↦ (
          row,
          lookup-insert last.event.event_id id (noted missing last) s.events_by_id ∙ rw e at,
          case,
        )
      ];
  once = c.once;
}

note-Reads :
    (missing : List String) (last : StoredEvent) (s : GatewayStore) (l : Ledger)
    → get_event last.event.event_id s ≡ some last
    → Reads s l
    → Reads (note_gaps missing last s) (replay_op (notes missing last) l)
unfolding replay_op note_gaps
note-Reads missing last s l there r = record {
  current = λ id.
      rw (lookup-insert last.event.event_id id (noted missing last) s.events_by_id, r.current id)
        refl;
  kept = r.kept;
  seals = r.seals;
  seals_kept = r.seals_kept;
  cases = note-IsConsistent missing last s there r.cases;
}

load_rows-files :
    (files : Assoc StoredEvent) (s : GatewayStore)
    → ((load_rows files s).event_files ≡ s.event_files)
      × ((load_rows files s).seals_file ≡ s.seals_file)
unfolding load_rows add_row
load_rows-files [] s = (refl, refl)
load_rows-files ((name, row) ∷ files) s = elim (Bool-cases (has_event row.event.event_id s)) [
  | inl e ↦ rw (load_rows, e) (load_rows-files files s)
  | inr e ↦ rw (load_rows, e) (load_rows-files files (add_row row s))
]

restart-Reads :
    (files : Assoc StoredEvent) (s : GatewayStore) (l : Ledger)
    → IsNamed files
    → ((id : String) → lookup id files ≡ lookup id s.event_files)
    → Reads s l
    → Reads (init files s) (replay_op restarts l)
unfolding replay_op init
restart-Reads files s l named same r =
    let empty = record s {
      events_by_case = [];
      events_by_id = [];
      packages = [];
      seals_by_case = [];
    } in
    let (same_files, same_seals) = load_rows-files files empty in
    record {
      current = λ id. init-lookup s files id named ∙ (same id ∙ r.kept id);
      kept = λ id. rw same_files (r.kept id);
      seals = λ key. rw r.seals_kept (r.seals key);
      seals_kept = rw same_seals refl;
      cases = init-IsConsistent s files;
    }

Step-Reads :
    (s t : GatewayStore) (op : StoreOp) (l : Ledger)
    → Step s op t
    → Reads s l
    → Reads t (replay_op op l)
unfolding replay_op record_seal
Step-Reads s _ _ l (put_step event decision) r = put-Reads event decision s l r
Step-Reads s _ _ l (note_step missing last there) r = note-Reads missing last s l there r
Step-Reads s _ _ l (restart_step files named same) r = restart-Reads files s l named same r
Step-Reads s _ _ l (seal_step rec) r = record {
  current = r.current;
  kept = r.kept;
  seals = λ key.
      rw (lookup-insert (case_key rec.flow_id rec.case_id) key rec s.seals_by_case, r.seals key)
        refl;
  seals_kept = refl;
  cases = IsConsistent-by s (record_seal rec s) refl refl r.cases;
}

-- The store implements the ledger: from a store that reads as one, whatever sequence of putEvent,
-- recordSeal, gaps that sealing notes on events, and restarts ends in a store that reads as the
-- ledger of the same sequence. So the file of an event stays as it was first stored, the event in
-- memory has the gaps that were noted on it until a restart forgets them, a case has the last seal
-- record that was written, and it lists exactly its events, each once; in which order is not said.
pub Steps-Reads :
    (s t : GatewayStore) (ops : List StoreOp) (l : Ledger)
    → Steps s ops t
    → Reads s l
    → Reads t (replay ops l)
unfolding replay
Steps-Reads s _ _ l finished r = r
Steps-Reads s t (op ∷ ops) l (next {t = m} step steps) r =
    Steps-Reads m t ops (replay_op op l) steps (Step-Reads s m op l step r)
