-- ===== src/Runtime/Queue/Tests.antt =====
-- The queue at concrete inputs.
use qev_platform.Base.{
  ℕ, String, ◌≡◌, refl, true, none, some, [], ◌∷◌, is_some, lookup, insert, erase, take, ◌≤◌, ◌<◌,
  inl, arith, ◌<>◌, decimal, ◌+◌, sort_by, text_lt,
}
use qev_platform.Json.{null}
use qev_platform.Runtime.Queue.{
  DurableQueue, EnqueueOptions, init, claim_ready, enqueue, claim_next, fail, write_all,
  ensure_ready, known_job, new_job, claimed, delay_sec, next_file, claim_writes, postponed,
}
use qev_platform.Runtime.Queue.Files.{
  QueueJob, Folder, in_pending, in_processing, in_dead, file, file_name, run_writes, duplicate,
}
use qev_platform.Runtime.Queue.Plans.{Works, claims, works, stored}
use qev_platform.Runtime.Queue.Safety.{crash-stored, restart-stored}
use qev_platform.Runtime.Queue.Exclusive.{IsExclusive, Planned-IsExclusive, copies}
use qev_platform.Runtime.Queue.Retries.{IsSound, Planned-IsSound}
use qev_platform.Runtime.Queue.Order.{ClaimsFirst, claim_next-first}
use qev_platform.Runtime.Queue.Failing.{delay_sec_bounds, IsFailed, fail_lem}
use qev_platform.Runtime.Queue.Draining.{
  all_left, fails_job, Rounds, stops, goes_on, Rounds-bounded,
}
use qev_platform.Runtime.Queue.Dedup.{enqueue_twice}

abbrev blank : DurableQueue
blank = record {
  disk = record {
    pending_dir = [];
    processing_dir = [];
    done_dir = [];
    dead_dir = [];
    index = none;
  };
  idempo = [];
  ready = true;
}

abbrev opts : EnqueueOptions
opts = record { kind = "ingest.event"; payload = null; idempotency_key = "k1"; max_attempts = none }

abbrev iso : ℕ → String
iso n = "2026-07-0" <> decimal n

abbrev cut : String → String
cut s = s

-- One pending job.
abbrev one_job : DurableQueue
one_job = record blank {
  disk = record {
    pending_dir = ("job_1.json", new_job "job_1" "2026-07-01" opts) ∷ [];
    processing_dir = [];
    done_dir = [];
    dead_dir = [];
    index = some (("k1", "job_1") ∷ []);
  };
  idempo = ("k1", "job_1") ∷ [];
}

-- The job in processing, once claimed.
abbrev at_work : DurableQueue
at_work = record one_job {
  disk = record {
    pending_dir = [];
    processing_dir = ("job_1.json", claimed "2026-07-02" (new_job "job_1" "2026-07-01" opts)) ∷ [];
    done_dir = [];
    dead_dir = [];
    index = some (("k1", "job_1") ∷ []);
  };
}

enqueue-one_job : (enqueue "job_1" "2026-07-01" opts blank).0 ≡ one_job
unfolding enqueue run_writes insert lookup
enqueue-one_job = refl

claim_one_job : (claim_next "2026-07-02" one_job).0 ≡ at_work
unfolding claim_next run_writes insert erase
claim_one_job = refl

abbrev queued : QueueJob
queued = new_job "job_1" "2026-07-01" opts

claims_job_1 : Works iso cut one_job (claim_writes "2026-07-02" "job_1.json" queued)
unfolding next_file
claims_job_1 = claims "2026-07-02" "job_1.json" queued refl

job_1_stored : stored "job_1.json" one_job.disk ≡ true
unfolding stored file lookup
job_1_stored = refl

crash-stored_example :
    stored "job_1.json"
      (run_writes (take 1 (claim_writes "2026-07-02" "job_1.json" queued)) one_job.disk)
    ≡ true
crash-stored_example = crash-stored iso cut "job_1.json" 1 (works claims_job_1) job_1_stored

-- The claim was cut short after its first write.
abbrev crashed : DurableQueue
crashed = record blank {
  disk = run_writes (take 1 (claim_writes "2026-07-02" "job_1.json" queued)) one_job.disk;
}

restart-stored_example :
    (file in_processing "job_1.json" (init crashed).disk ≡ none)
    × (stored "job_1.json" (init crashed).disk ≡ true)
restart-stored_example =
    restart-stored iso cut "job_1.json" 1 crashed (works claims_job_1) refl job_1_stored

one_job-IsExclusive : IsExclusive one_job.disk
unfolding copies file lookup
one_job-IsExclusive = record { at = λ n. ground arith }

Planned-IsExclusive_example :
    IsExclusive (run_writes (claim_writes "2026-07-02" "job_1.json" queued) one_job.disk)
Planned-IsExclusive_example = Planned-IsExclusive iso cut (works claims_job_1) one_job-IsExclusive

blank_fresh : (f : Folder) → file f (file_name "job_1") blank.disk ≡ none
unfolding file lookup
blank_fresh in_pending = refl
blank_fresh _ = refl

one_job-IsSound : IsSound one_job.disk
one_job-IsSound = record {
  at = elim [
    | in_pending ↦
        (record { named = refl; limit = omega arith; fits = inl (refl, omega arith) }, tt)
    | _ ↦ tt
  ];
}

-- A claim that stops after its first write leaves sound files.
Planned-IsSound_example :
    IsSound (run_writes (take 1 (claim_writes "2026-07-02" "job_1.json" queued)) one_job.disk)
unfolding claims_job_1
Planned-IsSound_example =
    Planned-IsSound iso cut {q = one_job} 1 (works claims_job_1) tt one_job-IsSound

claim_next-first_example :
    ClaimsFirst "2026-07-02"
      (ensure_ready one_job).disk.pending_dir
      (claim_next "2026-07-02" one_job).1
claim_next-first_example = claim_next-first "2026-07-02" one_job

delay_sec_bounds_example :
    (delay_sec 3 ≤ delay_sec 12)
    × (delay_sec 12 ≤ 300)
    × (delay_sec 1 ≡ 0)
    × (9 < 12 → delay_sec 12 ≡ 300)
delay_sec_bounds_example = delay_sec_bounds 3 12 (omega arith)

abbrev worked : QueueJob
worked = claimed "2026-07-02" queued

worked-file : file in_processing (file_name "job_1") at_work.disk ≡ some worked
unfolding file lookup
worked-file = refl

fail_lem_example :
    (file in_processing (file_name "job_1") at_work.disk ≡ none
      → fail iso cut "job_1" 3 "late" at_work ≡ at_work)
    × ((job : QueueJob)
        → file in_processing (file_name "job_1") at_work.disk ≡ some job
        → IsFailed iso cut "job_1" 3 "late" job at_work.disk
            (fail iso cut "job_1" 3 "late" at_work).disk)
fail_lem_example = fail_lem iso cut "job_1" 3 "late" at_work

-- The job has four attempts left, so it is pending again and not dead.
failed_job :
    (file in_pending (file_name "job_1") (fail iso cut "job_1" 3 "late" at_work).disk
      ≡ some (postponed iso cut 3 "late" worked))
    × (file in_dead (file_name "job_1") (fail iso cut "job_1" 3 "late" at_work).disk
        ≡ file in_dead (file_name "job_1") at_work.disk)
failed_job =
    ((fail_lem iso cut "job_1" 3 "late" at_work).1 worked worked-file).tried_again (omega arith)

blank_unknown : known_job "k1" blank ≡ none
unfolding known_job lookup
blank_unknown = refl

enqueue_twice_example :
    ((enqueue "job_1" "2026-07-01" opts blank).1 ≡ new_job "job_1" "2026-07-01" opts)
    × (file in_pending (file_name "job_1") (enqueue "job_1" "2026-07-01" opts blank).0.disk
        ≡ some (new_job "job_1" "2026-07-01" opts))
    × (enqueue "job_2" "2026-07-02" opts (enqueue "job_1" "2026-07-01" opts blank).0 ≡ (
      (enqueue "job_1" "2026-07-01" opts blank).0,
      record (new_job "job_1" "2026-07-01" opts) { status = duplicate },
      true,
    ))
enqueue_twice_example =
    enqueue_twice "job_1" "2026-07-01" "job_2" "2026-07-02" opts opts blank refl refl blank_unknown
      refl

job_1_known : is_some (known_job "k1" one_job) ≡ true
unfolding known_job lookup file
job_1_known = refl

abbrev half_claimed : DurableQueue
half_claimed = write_all one_job (take 1 (claim_writes "2026-07-02" "job_1.json" queued))

-- The job is claimed once and fails, which leaves it four attempts.
abbrev failed_once : DurableQueue
failed_once = fail iso cut "job_1" 1 "timeout" (claim_next "2026-07-02" one_job).0

one_round : Rounds iso cut one_job 1 failed_once
unfolding claim_next claim_ready next_file sort_by text_lt
one_round =
    goes_on
      (fails_job "2026-07-02" 1 "timeout" (claim_next "2026-07-02" one_job).0
        (claimed "2026-07-02" (new_job "job_1" "2026-07-01" opts)) refl)
      stops

Rounds-bounded_example :
    1 + all_left (ensure_ready failed_once).disk.pending_dir
    ≤ all_left (ensure_ready one_job).disk.pending_dir
Rounds-bounded_example = Rounds-bounded iso cut one_job failed_once 1 one_round one_job-IsSound

one_job_left : all_left (ensure_ready one_job).disk.pending_dir ≡ 5
one_job_left = refl
