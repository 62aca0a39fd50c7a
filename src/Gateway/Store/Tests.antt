-- ===== src/Gateway/Store/Tests.antt =====
-- The store at concrete inputs.
use mathlib.Core.Path.{subst}
use qev_platform.Base.{
  none, List, String, ◌==◌, ◌≡◌, refl, some, [], ◌∷◌, ◌++◌, if◌then◌else◌, lookup, insert, includes,
}
use qev_platform.Policy.{PolicyDecision}
use qev_platform.Gateway.Store.{
  GatewayStore, case_key, has_event, get_event, get_case, case_ids, add_row, storage_id, put_event,
  duplicate, stored, init,
}
use qev_platform.Gateway.Store.Consistent.{IsConsistent}
use qev_platform.Gateway.Store.Cases.{row_of, put_event-get_case}
use qev_platform.Gateway.Store.Ledger.{
  Ledger, StoreOp, puts, notes, restarts, replay, after_put, Step, Steps, finished, next, put_step,
  note_step, restart_step, Reads,
}
use qev_platform.Gateway.Store.Refines.{Steps-Reads}
use qev_platform.Gateway.Sealing.Parts.{note_gaps}
use qev_platform.Gateway.Samples.{empty, decision, job, one_event}

put_job : put_event job decision empty ≡ stored one_event
unfolding put_event storage_id has_event add_row case_ids lookup insert includes
put_job = refl

empty-IsConsistent : IsConsistent empty
unfolding case_ids lookup
empty-IsConsistent = record {
  keyed = λ id row h. cc;
  listed = λ id row h. cc;
  known = λ key id h. cc;
  once = λ key. tt;
}

put_event-get_case_example :
    ((id : String)
      → get_event id one_event
        ≡ (if "evt_1" == id then some (row_of job decision) else get_event id empty))
    × ((flow_id case_id : String)
        → get_case flow_id case_id one_event ≡ (
            get_case flow_id case_id empty
            ++ (if "field-service::JOB-1" == case_key flow_id case_id
                then row_of job decision ∷ []
                else [])))
    × ((again : PolicyDecision) → put_event job again one_event ≡ duplicate)
put_event-get_case_example =
    put_event-get_case job decision empty one_event empty-IsConsistent put_job

abbrev blank_ledger : Ledger
blank_ledger = record { current = λ id. none; kept = λ id. none; seals = λ key. none }

empty-Reads : Reads empty blank_ledger
unfolding lookup
empty-Reads = record {
  current = λ id. refl;
  kept = λ id. refl;
  seals = λ key. refl;
  seals_kept = refl;
  cases = empty-IsConsistent;
}

-- An event is stored, gaps are noted on it, the process is started again, and the event is given once
-- more.
abbrev marked : GatewayStore
marked = note_gaps ("job.created" ∷ []) (row_of job decision) one_event

abbrev restarted : GatewayStore
restarted = init one_event.event_files marked

abbrev given_again : GatewayStore
given_again = after_put (put_event job decision restarted) restarted

abbrev calls : List StoreOp
calls =
    puts job decision
    ∷ notes ("job.created" ∷ []) (row_of job decision)
    ∷ restarts
    ∷ puts job decision
    ∷ []

stored_job : after_put (put_event job decision empty) empty ≡ one_event
stored_job = rw put_job refl

found_job : get_event "evt_1" one_event ≡ some (row_of job decision)
unfolding lookup
found_job = refl

runs : Steps empty calls given_again
unfolding note_gaps
runs = next (subst (Step empty (puts job decision)) stored_job (put_step job decision)) (
    next (note_step ("job.created" ∷ []) (row_of job decision) found_job) (
      next (restart_step one_event.event_files (refl, tt) (λ id. refl))
        (next (put_step job decision) finished)))

Steps-Reads_example : Reads given_again (replay calls blank_ledger)
Steps-Reads_example = Steps-Reads empty given_again calls blank_ledger runs empty-Reads
