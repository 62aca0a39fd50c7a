-- ===== src/Runtime/Queue.antt =====
-- packages/runtime/src/queue.ts: the disk queue. A file `<id>.json` holds the job that was written
-- to it, and the directories hold no other files. Every operation is the list of its writes, so
-- that a crash is a prefix of them; it reads the clock once. `iso` is Date.toISOString.
pub mod Files
pub mod Plans
pub mod Safety
pub mod Order
pub mod Exclusive
pub mod Retries
pub mod Failing
pub mod Dedup
pub mod Draining
mod Tests
use mathlib.Core.List.{foldl}
use qev_platform.Base.{
  ℕ, zero, suc, ◌+◌, ◌-◌, ◌*◌, ◌^◌, min, String, Bool, true, false, Option, none, some, List, [],
  ◌∷◌, ltb, leb, eqb, truthy, text_lt, sort_by, if◌then◌else◌, or_else, Assoc, lookup, insert,
  length, map,
}
use qev_platform.Json.{Json}
use Files.{
  QueueJobStatus, QueueJob, Folder, in_pending, in_processing, in_done, in_dead, Disk, Write, dir,
  file, file_name, run_writes, pending, processing, done, dead, duplicate, put, remove, rename,
  save_index,
}

-- `idempo` and `ready` are the fields of the class; the disk is what survives a restart.
pub record DurableQueue : Type 0 where
  pub disk : Disk
  pub idempo : Assoc String
  pub ready : Bool

pub record EnqueueOptions : Type 0 where
  pub kind : String
  pub payload : Json
  pub idempotency_key : String
  pub max_attempts : Option ℕ

pub record Stats : Type 0 where
  pub pending_count : ℕ
  pub processing_count : ℕ
  pub done_count : ℕ
  pub dead_count : ℕ

abbrev pub write_all : DurableQueue → List Write → DurableQueue
write_all q ws = record q { disk = run_writes ws q.disk }

abbrev pub read_from : Folder → String → Disk → Option QueueJob
read_from f id d = file f (file_name id) d

abbrev first_some {ℓ} : {A : Type ℓ} → Option A → Option A → Option A
first_some (some a) b = some a
first_some none b = b

unfoldable pub read_job_anywhere : String → Disk → Option QueueJob
read_job_anywhere id d = first_some (read_from in_pending id d) (
    first_some (read_from in_processing id d)
      (first_some (read_from in_done id d) (read_from in_dead id d)))

abbrev recover_writes : Assoc QueueJob → List Write
recover_writes [] = []
recover_writes ((name, job) ∷ rest) = rename in_processing in_pending name job ∷ recover_writes rest

-- init: the index is read, and every interrupted job goes back to pending.
unfoldable pub init_writes : Disk → List Write
init_writes d = recover_writes d.processing_dir

unfoldable pub init : DurableQueue → DurableQueue
unfolding init_writes
init q = record {
  disk = run_writes (init_writes q.disk) q.disk;
  idempo = or_else q.disk.index [];
  ready = true;
}

abbrev pub ensure_ready : DurableQueue → DurableQueue
ensure_ready q = if q.ready then q else init q

abbrev pub new_job : (id now : String) → EnqueueOptions → QueueJob
new_job id now opts = record {
  id = id;
  idempotency_key = opts.idempotency_key;
  created_at = now;
  updated_at = now;
  attempts = 0;
  max_attempts = or_else opts.max_attempts 5;
  status = pending;
  kind = opts.kind;
  payload = opts.payload;
  last_error = none;
  next_attempt_at = none;
}

abbrev pub enqueue_writes : DurableQueue → QueueJob → List Write
enqueue_writes q job =
    save_index (insert job.idempotency_key job.id q.idempo)
    ∷ put in_pending (file_name job.id) job
    ∷ []

abbrev add_job : DurableQueue → QueueJob → DurableQueue × QueueJob × Bool
add_job q job = (
  record q {
    disk = run_writes (enqueue_writes q job) q.disk;
    idempo = insert job.idempotency_key job.id q.idempo;
  },
  job,
  false,
)

-- The job that was enqueued under the key before, if its file can still be read.
unfoldable pub known_job : String → DurableQueue → Option QueueJob
unfolding read_job_anywhere
known_job key q =
    let existing = or_else (lookup key q.idempo) "" in
    if truthy existing then read_job_anywhere existing q.disk else none

enqueue_ready : (id now : String) → EnqueueOptions → DurableQueue → DurableQueue × QueueJob × Bool
unfolding known_job
enqueue_ready id now opts q = elim (known_job opts.idempotency_key q) [
  | some job ↦ (q, record job { status = duplicate }, true)
  | none ↦ add_job q (new_job id now opts)
]

-- `id` is the fresh identifier that newId("job") gives.
unfoldable pub enqueue :
    (id now : String) → EnqueueOptions → DurableQueue → DurableQueue × QueueJob × Bool
unfolding enqueue_ready init
enqueue id now opts q = enqueue_ready id now opts (ensure_ready q)

-- A job whose next attempt lies in the future is passed over.
abbrev pub is_due : String → QueueJob → Bool
is_due now job = elim job.next_attempt_at [
  | none ↦ true
  | some t ↦ if truthy t then (if text_lt now t then false else true) else true
]

abbrev pub first_due : String → Assoc QueueJob → Option (String × QueueJob)
first_due now [] = none
first_due now ((name, job) ∷ rest) = if is_due now job then some (name, job) else first_due now rest

abbrev pub name_lt : String × QueueJob → String × QueueJob → Bool
name_lt a b = text_lt a.0 b.0

abbrev pub claimed : String → QueueJob → QueueJob
claimed now job = record job { status = processing; attempts = job.attempts + 1; updated_at = now }

-- The pending file that is claimed next.
unfoldable pub next_file : String → Disk → Option (String × QueueJob)
unfolding sort_by
next_file now d = first_due now (sort_by name_lt d.pending_dir)

abbrev pub claim_writes : String → String → QueueJob → List Write
claim_writes now name job = put in_processing name (claimed now job) ∷ remove in_pending name ∷ []

claim_ready : String → DurableQueue → DurableQueue × Option QueueJob
unfolding next_file
claim_ready now q = elim (next_file now q.disk) [
  | none ↦ (q, none)
  | some (name, job) ↦ (write_all q (claim_writes now name job), some (claimed now job))
]

unfoldable pub claim_next : String → DurableQueue → DurableQueue × Option QueueJob
unfolding claim_ready init
claim_next now q = claim_ready now (ensure_ready q)

unfoldable pub complete_writes : (id now : String) → Disk → List Write
complete_writes id now d = elim (read_from in_processing id d) [
  | none ↦ []
  | some job ↦
      put in_done (file_name id) (record job { status = done; updated_at = now })
      ∷ remove in_processing (file_name id)
      ∷ []
]

unfoldable pub complete : (id now : String) → DurableQueue → DurableQueue
unfolding complete_writes
complete id now q = write_all q (complete_writes id now q.disk)

-- Math.min(300, Math.max(0, 2 ** (attempts - 1) - 1)): a job that was never claimed waits 0 seconds too.
unfoldable pub delay_sec : ℕ → ℕ
delay_sec attempts = min 300 (2 ^ (attempts - 1) - 1)

-- `cut` is error.slice(0, 2000), and `iso` turns milliseconds into the text of a date.
module _ (iso : ℕ → String) (cut : String → String) where
  abbrev pub buried : (now : ℕ) (error : String) → QueueJob → QueueJob
  buried now error job = record job {
    last_error = some (cut error);
    updated_at = iso now;
    status = dead;
  }

  abbrev pub postponed : (now : ℕ) (error : String) → QueueJob → QueueJob
  postponed now error job = record job {
    last_error = some (cut error);
    updated_at = iso now;
    status = pending;
    next_attempt_at =
        if eqb (delay_sec job.attempts) 0
        then none
        else some (iso (now + delay_sec job.attempts * 1000));
  }

  unfoldable pub fail_writes : (id : String) (now : ℕ) (error : String) → Disk → List Write
  fail_writes id now error d = elim (read_from in_processing id d) [
    | none ↦ []
    | some job ↦
        if leb job.max_attempts job.attempts
        then put in_dead (file_name id) (buried now error job)
          ∷ remove in_processing (file_name id)
          ∷ []
        else put in_pending (file_name id) (postponed now error job)
          ∷ remove in_processing (file_name id)
          ∷ []
  ]

  unfoldable pub fail : (id : String) (now : ℕ) (error : String) → DurableQueue → DurableQueue
  unfolding fail_writes
  fail id now error q = write_all q (fail_writes id now error q.disk)

abbrev pub replayed : String → QueueJob → QueueJob
replayed now job = record job {
  status = pending;
  attempts = 0;
  last_error = none;
  next_attempt_at = none;
  updated_at = now;
}

unfoldable pub replay_writes : (id now : String) → Disk → List Write
replay_writes id now d = elim (read_from in_dead id d) [
  | none ↦ []
  | some job ↦ put in_pending (file_name id) (replayed now job) ∷ remove in_dead (file_name id) ∷ []
]

unfoldable pub replay_dead : (id now : String) → DurableQueue → DurableQueue × Bool
unfolding replay_writes
replay_dead id now q = elim (read_from in_dead id q.disk) [
  | none ↦ (q, false)
  | some job ↦ (write_all q (replay_writes id now q.disk), true)
]

unfoldable pub stats : DurableQueue → DurableQueue × Stats
unfolding init
stats q =
    let r = ensure_ready q in
    (
      r,
      record {
        pending_count = length r.disk.pending_dir;
        processing_count = length r.disk.processing_dir;
        done_count = length r.disk.done_dir;
        dead_count = length r.disk.dead_dir;
      },
    )

abbrev second {ℓ κ} : {A : Type ℓ} {B : Type κ} → A × B → B
second p = p.1

unfoldable pub list_dead : DurableQueue → List QueueJob
list_dead q = map second q.disk.dead_dir
