-- ===== src/Runtime/CaseLog/Tests.antt =====
-- The case log at concrete inputs, with a hash function under which all texts collide.
use qev_platform.Base.{
  Collision, ℕ, String, ◌≡◌, ◌⊎◌, refl, true, false, none, some, List, [], ◌∷◌, length,
}
use qev_platform.Runtime.CaseLog.{
  CaseLogEntry, AppendOptions, CaseLog, genesis, opened, init, ensure_ready, lines_of, new_entry,
  append_line, save_meta, append, chain_failures, entry_digest, verify_chain,
}
use qev_platform.Runtime.CaseLog.History.{
  IsIntact, Act, appends, restarts, run_acts, count_appends, history_verified,
}
use qev_platform.Runtime.CaseLog.Torn.{torn, torn-verify_chain}
use qev_platform.Runtime.CaseLog.Tamper.{missing_entries, altered_entry}

abbrev hash : String → String
hash s = "d"

abbrev note : String → AppendOptions
note summary = record {
  case_id = "JOB-1";
  flow_id = "field-service";
  kind = "event.accepted";
  event_id = some "evt_1";
  package_id = none;
  summary = summary;
}

abbrev entry : ℕ → String → String → CaseLogEntry
entry n prev summary = record {
  seq = n;
  at = "2026-07-01";
  case_id = "JOB-1";
  flow_id = "field-service";
  kind = "event.accepted";
  event_id = some "evt_1";
  package_id = none;
  summary = summary;
  prev_digest = prev;
  digest = "d";
}

abbrev e1 : CaseLogEntry
e1 = entry 1 genesis "created"

abbrev e1' : CaseLogEntry
e1' = entry 1 genesis "never created"

abbrev e2 : CaseLogEntry
e2 = entry 2 "d" "approved"

abbrev e3 : CaseLogEntry
e3 = entry 3 "d" "done"

appended_entry : (append hash "2026-07-01" (note "created") (opened none none)).1 ≡ e1
unfolding append init append_line save_meta new_entry entry_digest
appended_entry = refl

abbrev log_of : List CaseLogEntry → CaseLog
log_of es = opened (some es) (some (record { seq = length es; last_digest = "d" }))

accepted : (verify_chain hash (log_of (e1 ∷ e2 ∷ e3 ∷ []))).ok ≡ true
unfolding verify_chain init chain_failures entry_digest
accepted = refl

accepted' : (verify_chain hash (log_of (e1' ∷ e2 ∷ e3 ∷ []))).ok ≡ true
unfolding verify_chain init chain_failures entry_digest
accepted' = refl

lines_whole : lines_of (ensure_ready (log_of (e1 ∷ e2 ∷ e3 ∷ []))).lines ≡ e1 ∷ e2 ∷ e3 ∷ []
unfolding init
lines_whole = refl

lines_altered : lines_of (ensure_ready (log_of (e1' ∷ e2 ∷ e3 ∷ []))).lines ≡ e1' ∷ e2 ∷ e3 ∷ []
unfolding init
lines_altered = refl

lines_inside : lines_of (ensure_ready (log_of (e1 ∷ e3 ∷ []))).lines ≡ e1 ∷ e3 ∷ []
unfolding init
lines_inside = refl

lines_end : lines_of (ensure_ready (log_of (e1 ∷ []))).lines ≡ e1 ∷ []
unfolding init
lines_end = refl

abbrev acts : List Act
acts =
    appends "2026-07-01" (note "created") ∷ restarts ∷ appends "2026-07-02" (note "approved") ∷ []

missing_entries_example :
    ((verify_chain hash (log_of (e1 ∷ e3 ∷ []))).ok ≡ false)
    × ((verify_chain hash (log_of (e1 ∷ []))).ok ≡ true)
missing_entries_example =
    missing_entries hash (log_of (e1 ∷ e2 ∷ e3 ∷ [])) (log_of (e1 ∷ e3 ∷ [])) (log_of (e1 ∷ []))
      (e1 ∷ []) e2 [] e3 [] lines_whole lines_inside lines_end accepted

altered_entry_example : (e1 ≡ e1') ⊎ Collision hash
altered_entry_example =
    altered_entry hash (log_of (e1 ∷ e2 ∷ e3 ∷ [])) (log_of (e1' ∷ e2 ∷ e3 ∷ [])) [] e1 e1' e2
      (e3 ∷ []) lines_whole lines_altered accepted accepted'

abbrev empty_log : CaseLog
empty_log = record {
  lines = none;
  meta = some (record { seq = 0; last_digest = genesis });
  seq = 0;
  last_digest = genesis;
  ready = true;
}

empty_log-IsIntact : IsIntact hash empty_log
empty_log-IsIntact = record { ready = refl; linked = tt; seq = refl; last = refl; saved = refl }

torn-verify_chain_example :
    ((verify_chain hash (torn hash "2026-07-01" (note "created") empty_log)).ok ≡ true)
    × ((verify_chain hash
          (append hash "2026-07-02"
            (note "approved")
            (torn hash "2026-07-01" (note "created") empty_log)).0).ok
        ≡ false)
torn-verify_chain_example =
    torn-verify_chain hash "2026-07-01" "2026-07-02" (note "created") (note "approved") empty_log
      empty_log-IsIntact

history_verified_example :
    ((verify_chain hash (run_acts hash acts (init (opened none none)))).ok ≡ true)
    × ((verify_chain hash (run_acts hash acts (init (opened none none)))).entries
        ≡ count_appends acts)
history_verified_example = history_verified hash acts
