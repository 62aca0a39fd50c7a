-- ===== src/Gateway/Store/Reload.antt =====
-- apps/gateway/src/store.ts: the store of a new process against that of the old one.
use qev_platform.Base.{
  String, ◌==◌, eq_iff, ◌≡◌, refl, sym, ◌∙◌, ap, true, false, Option, none, some, [], ◌∷◌,
  if◌then◌else◌, or_else, Bool-cases, Option-cases, inl, inr, All, Assoc, lookup, lookup-insert,
}
use qev_platform.Event.{QevEvent}
use qev_platform.Policy.{PolicyDecision}
use qev_platform.Gateway.Store.{
  StoredEvent, CaseSealRecord, GatewayStore, has_event, get_event, case_ids, add_row, put_event,
  stored, load_rows, init, get_seal_record, record_seal,
}
use qev_platform.Gateway.Store.Consistent.{
  IsConsistent, IsConsistent-by, add_row-IsConsistent, absent, lookup-add_row,
}
use qev_platform.Gateway.Store.Cases.{row_of, put_event-stored}

-- Each event is in the file of its id, and the seals are in their file.
pub record IsSaved (s : GatewayStore) : Type 0 where
  pub events : (id : String) → lookup id s.event_files ≡ get_event id s
  pub seals : or_else s.seals_file [] ≡ s.seals_by_case

abbrev first_of : Option StoredEvent → Option StoredEvent → Option StoredEvent
first_of none o = o
first_of (some row) o = some row

first_of-none : (o : Option StoredEvent) → first_of o none ≡ o
first_of-none none = refl
first_of-none (some row) = refl

present :
    (id : String) (s : GatewayStore)
    → has_event id s ≡ true
    → (r : StoredEvent) × (lookup id s.events_by_id ≡ some r)
unfolding has_event
present id s h = elim (Option-cases (lookup id s.events_by_id)) [
  | inl e ↦ let clash : false ≡ true = rw e at h in cc
  | inr found ↦ found
]

-- The directory's files are named for the ids of their events.
abbrev pub IsNamed : Assoc StoredEvent → Type 0
IsNamed files = All (λ (e : String × StoredEvent). e.1.event.event_id ≡ e.0) files

-- A file of an event that is there already adds nothing.
load-old :
    (name id : String) (row r : StoredEvent) (o found : Option StoredEvent)
    → row.event.event_id ≡ name
    → (row.event.event_id ≡ id → o ≡ some r)
    → first_of o found ≡ first_of o (if name == id then some row else found)
load-old name id row r o found named here = elim (Bool-cases (name == id)) [
  | inl e ↦ let at = here (named ∙ (eq_iff name id).0 e) in rw at refl
  | inr e ↦ rw e refl
]

-- A file of a new event adds it.
load-new :
    (name id : String) (row : StoredEvent) (o found : Option StoredEvent)
    → row.event.event_id ≡ name
    → (row.event.event_id ≡ id → o ≡ none)
    → first_of (if row.event.event_id == id then some row else o) found
      ≡ first_of o (if name == id then some row else found)
load-new name id row o found named here = elim (Bool-cases (name == id)) [
  | inl e ↦ let at = here (named ∙ (eq_iff name id).0 e) in rw (named, e, at) refl
  | inr e ↦ rw (named, e) refl
]

load_rows-lookup :
    (files : Assoc StoredEvent) (s : GatewayStore) (id : String)
    → IsNamed files
    → lookup id (load_rows files s).events_by_id
      ≡ first_of (lookup id s.events_by_id) (lookup id files)
unfolding load_rows lookup
load_rows-lookup [] s id n = sym (first_of-none (lookup id s.events_by_id))
load_rows-lookup ((name, row) ∷ files) s id n = elim (Bool-cases (has_event row.event.event_id s)) [
  | inl old ↦
      let (r, at) = present row.event.event_id s old in
      ap (λ b. lookup id (load_rows files (if b then s else add_row row s)).events_by_id) old
      ∙ (load_rows-lookup files s id n.1
          ∙ load-old name id row r (lookup id s.events_by_id) (lookup id files) n.0
              (λ e. rw (← e) at))
  | inr new ↦
      let none_yet = absent row.event.event_id s new in
      ap (λ b. lookup id (load_rows files (if b then s else add_row row s)).events_by_id) new
      ∙ (load_rows-lookup files (add_row row s) id n.1
          ∙ (ap (λ o. first_of o (lookup id files)) (lookup-add_row row s id)
              ∙ load-new name id row (lookup id s.events_by_id) (lookup id files) n.0
                  (λ e. rw (← e) none_yet)))
]

load_rows-IsConsistent :
    (files : Assoc StoredEvent) (s : GatewayStore)
    → IsConsistent s
    → IsConsistent (load_rows files s)
unfolding load_rows
load_rows-IsConsistent [] s c = c
load_rows-IsConsistent ((name, row) ∷ files) s c =
    elim (Bool-cases (has_event row.event.event_id s)) [
      | inl old ↦ rw old (load_rows-IsConsistent files s c)
      | inr new ↦ rw new (
          load_rows-IsConsistent files (add_row row s)
            (add_row-IsConsistent row s c (absent row.event.event_id s new)))
    ]

abbrev empty_of : GatewayStore → GatewayStore
empty_of disk = record disk {
  events_by_case = [];
  events_by_id = [];
  packages = [];
  seals_by_case = [];
}

empty-IsConsistent : (disk : GatewayStore) → IsConsistent (empty_of disk)
unfolding case_ids lookup
empty-IsConsistent disk = record {
  keyed = λ id row h. cc;
  listed = λ id row h. cc;
  known = λ key id h. cc;
  once = λ key. tt;
}

pub init-lookup :
    (s : GatewayStore) (files : Assoc StoredEvent) (id : String)
    → IsNamed files
    → get_event id (init files s) ≡ lookup id files
unfolding init
init-lookup s files id named = load_rows-lookup files (empty_of s) id named

pub init-IsConsistent : (s : GatewayStore) (files : Assoc StoredEvent) → IsConsistent (init files s)
unfolding init
init-IsConsistent s files =
    IsConsistent-by (load_rows files (empty_of s)) (init files s) refl refl
      (load_rows-IsConsistent files (empty_of s) (empty-IsConsistent s))

-- After a restart over the files of a store that is saved, each named for its event and listed in
-- whatever order, each event is found by its id as before, each case's seal record is the same, and the maps are consistent.
pub init-get_event :
    (s : GatewayStore) (files : Assoc StoredEvent)
    → IsSaved s
    → IsNamed files
    → ((id : String) → lookup id files ≡ lookup id s.event_files)
    → ((id : String) → get_event id (init files s) ≡ get_event id s)
      × ((flow_id case_id : String)
          → get_seal_record flow_id case_id (init files s) ≡ get_seal_record flow_id case_id s)
      × IsConsistent (init files s)
unfolding init get_seal_record
init-get_event s files saved named same = (
  (λ id. load_rows-lookup files (empty_of s) id named ∙ (same id ∙ saved.events id)),
  (λ flow_id case_id. rw saved.seals refl),
  IsConsistent-by (load_rows files (empty_of s)) (init files s) refl refl
      (load_rows-IsConsistent files (empty_of s) (empty-IsConsistent s)),
)

-- If the disk holds what is in memory, it still does after an event is stored or a seal recorded.
pub operations-IsSaved :
    (s : GatewayStore)
    → IsSaved s
    → ((event : QevEvent) (decision : PolicyDecision) (t : GatewayStore)
        → put_event event decision s ≡ stored t
        → IsSaved t)
      × ((rec : CaseSealRecord) → IsSaved (record_seal rec s))
unfolding record_seal add_row
operations-IsSaved s saved = (
  (λ event decision t h.
      let (ok, new, e) = put_event-stored event decision s t h in
      let row = row_of event decision in
      rw e (record {
        events = λ id.
            rw
              (
                lookup-add_row row s id,
                lookup-insert event.event_id id row s.event_files,
                saved.events id,
              )
              refl;
        seals = saved.seals;
      })),
  (λ rec. record { events = saved.events; seals = refl }),
)
