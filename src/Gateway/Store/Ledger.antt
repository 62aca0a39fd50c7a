-- ===== src/Gateway/Store/Ledger.antt =====
-- apps/gateway/src/store.ts: the ledger the store is to read as through what is done to it: the events in memory,
-- the events as the files keep them, and the seals.
use qev_platform.Base.{
  String, ◌==◌, ◌≡◌, ◌&&◌, Option, none, some, List, [], ◌∷◌, ◌++◌, map, if◌then◌else◌, or_else,
  Assoc, lookup,
}
use qev_platform.Event.{QevEvent}
use qev_platform.Policy.{PolicyDecision}
use qev_platform.Gateway.Store.{
  storage_id, StoredEvent, CaseSealRecord, GatewayStore, case_key, get_event, PutResult, invalid,
  duplicate, stored, put_event, init, record_seal,
}
use qev_platform.Gateway.Store.Consistent.{IsConsistent}
use qev_platform.Gateway.Store.Cases.{row_of}
use qev_platform.Gateway.Store.Reload.{IsNamed}
use qev_platform.Gateway.Sealing.Parts.{gap_of, note_gaps}

-- What a client of the store may count on: the event that is found under an identifier, the one that
-- its file keeps, and the last seal record that was written for a case.
pub record Ledger : Type 0 where
  pub current : String → Option StoredEvent
  pub kept : String → Option StoredEvent
  pub seals : String → Option CaseSealRecord

-- What is done to a store: putEvent, recordSeal, the gaps that sealing notes on an event, and a restart
-- of the process.
pub data StoreOp : Type 0 where
  puts : QevEvent → PolicyDecision → StoreOp
  seals : CaseSealRecord → StoreOp
  notes : List String → StoredEvent → StoreOp
  restarts : StoreOp

abbrev pub unless_known {ℓ} : {A : Type ℓ} → Option StoredEvent → A → A → A
unless_known (some old) as_it_was new = as_it_was
unless_known none as_it_was new = new

abbrev pub noted : List String → StoredEvent → StoredEvent
noted missing last = record last {
  event = record last.event {
    known_gaps = some (or_else last.event.known_gaps [] ++ map gap_of missing);
  };
}

unfoldable pub replay_op : StoreOp → Ledger → Ledger
replay_op (puts event decision) l = record l {
  current = λ id.
      if storage_id event.event_id && event.event_id == id
      then unless_known (l.current id) (l.current id) (some (row_of event decision))
      else l.current id;
  kept = λ id.
      if storage_id event.event_id && event.event_id == id
      then unless_known (l.current id) (l.kept id) (some (row_of event decision))
      else l.kept id;
}
replay_op (seals rec) l = record l {
  seals = λ key. if case_key rec.flow_id rec.case_id == key then some rec else l.seals key;
}
replay_op (notes missing last) l = record l {
  current = λ id. if last.event.event_id == id then some (noted missing last) else l.current id;
}
replay_op restarts l = record l { current = l.kept }

unfoldable pub replay : List StoreOp → Ledger → Ledger
unfolding replay_op
replay [] l = l
replay (op ∷ ops) l = replay ops (replay_op op l)

abbrev pub after_put : PutResult → GatewayStore → GatewayStore
after_put (stored t) s = t
after_put invalid s = s
after_put duplicate s = s

-- One of them: gaps are noted on an event of the store, and a restart goes over the files as the
-- directory lists them.
pub data Step (s : GatewayStore) : StoreOp → GatewayStore → Type 0 where
  put_step :
      (event : QevEvent) (decision : PolicyDecision)
      → Step s (puts event decision) (after_put (put_event event decision s) s)
  seal_step : (rec : CaseSealRecord) → Step s (seals rec) (record_seal rec s)
  note_step :
      (missing : List String) (last : StoredEvent)
      → get_event last.event.event_id s ≡ some last
      → Step s (notes missing last) (note_gaps missing last s)
  restart_step :
      (files : Assoc StoredEvent)
      → IsNamed files
      → ((id : String) → lookup id files ≡ lookup id s.event_files)
      → Step s restarts (init files s)

pub data Steps : GatewayStore → List StoreOp → GatewayStore → Type 0 where
  finished : {s : GatewayStore} → Steps s [] s
  next :
      {s t u : GatewayStore} {op : StoreOp} {ops : List StoreOp}
      → Step s op t
      → Steps t ops u
      → Steps s (op ∷ ops) u

-- The store reads as the ledger, and a case lists exactly its events, each once.
pub record Reads (s : GatewayStore) (l : Ledger) : Type 0 where
  pub current : (id : String) → get_event id s ≡ l.current id
  pub kept : (id : String) → lookup id s.event_files ≡ l.kept id
  pub seals : (key : String) → lookup key s.seals_by_case ≡ l.seals key
  pub seals_kept : or_else s.seals_file [] ≡ s.seals_by_case
  pub cases : IsConsistent s
