-- ===== src/Runtime/Queue/Dedup.antt =====
-- packages/runtime/src/queue.ts: keys that were enqueued before.
use qev_platform.Base.{
  ℕ, String, ◌≡◌, ap, ◌∙◌, refl, true, false, none, some, List, arith, inl, inr, eq_refl, is_some,
  if◌then◌else◌, or_else, lookup, insert, lookup-insert, truthy, take, Bool-cases, Option-cases,
}
use qev_platform.Runtime.Queue.{
  DurableQueue, EnqueueOptions, write_all, read_job_anywhere, known_job, new_job, add_job,
  enqueue_ready, enqueue, init,
}
use qev_platform.Runtime.Queue.Files.{
  QueueJob, duplicate, in_pending, Disk, Write, file, file_name, run_writes, file-put,
}
use qev_platform.Runtime.Queue.Plans.{Planned, stored}
use qev_platform.Runtime.Queue.Safety.{crash-stored}

found-eq-stored :
    (id : String) (d : Disk) → is_some (read_job_anywhere id d) ≡ stored (file_name id) d
unfolding read_job_anywhere stored
found-eq-stored id d = ground arith

-- The job that an enqueue adds is the one known under its key.
known-enqueue :
    (id now : String) (opts : EnqueueOptions) (q : DurableQueue)
    → truthy id ≡ true
    → known_job opts.idempotency_key (add_job q (new_job id now opts)).0
      ≡ some (new_job id now opts)
unfolding known_job run_writes
known-enqueue id now opts q t = simp (lookup-insert, eq_refl) (rw t (simp (file-put, eq_refl)))

enqueue_ready-new :
    (id now : String) (opts : EnqueueOptions) (q : DurableQueue)
    → known_job opts.idempotency_key q ≡ none
    → enqueue_ready id now opts q ≡ add_job q (new_job id now opts)
unfolding enqueue_ready run_writes insert
enqueue_ready-new id now opts q e = rw (enqueue_ready, e)

enqueue_ready-known :
    (id now : String) (opts : EnqueueOptions) (q : DurableQueue) {job : QueueJob}
    → known_job opts.idempotency_key q ≡ some job
    → enqueue_ready id now opts q ≡ (q, record job { status = duplicate }, true)
unfolding enqueue_ready
enqueue_ready-known id now opts q e = rw (enqueue_ready, e)

enqueue-new :
    (id now : String) (opts : EnqueueOptions) (q : DurableQueue)
    → q.ready ≡ true
    → known_job opts.idempotency_key q ≡ none
    → enqueue id now opts q ≡ add_job q (new_job id now opts)
unfolding enqueue
enqueue-new id now opts q r e =
    ap (enqueue_ready id now opts) (ap (λ b. if b then q else init q) r)
    ∙ enqueue_ready-new id now opts q e

enqueue-known :
    (id now : String) (opts : EnqueueOptions) (q : DurableQueue) {job : QueueJob}
    → q.ready ≡ true
    → known_job opts.idempotency_key q ≡ some job
    → enqueue id now opts q ≡ (q, record job { status = duplicate }, true)
unfolding enqueue
enqueue-known id now opts q r e =
    ap (enqueue_ready id now opts) (ap (λ b. if b then q else init q) r)
    ∙ enqueue_ready-known id now opts q e

-- Enqueuing a key that is not known adds a pending job under it, and enqueuing the same key again,
-- with any other options, then changes nothing and returns that job marked as a duplicate.
pub enqueue_twice :
    (id now id' now' : String) (opts opts' : EnqueueOptions) (q : DurableQueue)
    → q.ready ≡ true
    → truthy id ≡ true
    → known_job opts.idempotency_key q ≡ none
    → opts'.idempotency_key ≡ opts.idempotency_key
    → ((enqueue id now opts q).1 ≡ new_job id now opts)
      × (file in_pending (file_name id) (enqueue id now opts q).0.disk ≡ some (new_job id now opts))
      × (enqueue id' now' opts' (enqueue id now opts q).0
          ≡ ((enqueue id now opts q).0, record (new_job id now opts) { status = duplicate }, true))
enqueue_twice id now id' now' opts opts' q r t e same = rw (enqueue-new id now opts q r e) (
  refl,
  unfold run_writes in simp (file-put, eq_refl),
  enqueue-known id' now' opts' (add_job q (new_job id now opts)).0 {job = new_job id now opts} r
      (rw same (known-enqueue id now opts q t)),
)

known-after :
    (iso : ℕ → String) (cut : String → String) (key : String) (k : ℕ) {q : DurableQueue}
    {ws : List Write}
    → Planned iso cut q ws
    → is_some (known_job key q) ≡ true
    → is_some (known_job key (write_all q (take k ws))) ≡ true
unfolding known_job
known-after iso cut key k {q} {ws} plan h =
    elim (Bool-cases (truthy (or_else (lookup key q.idempo) ""))) [
      | inl t ↦
          rw (t, found-eq-stored)
            (crash-stored iso cut (file_name (or_else (lookup key q.idempo) "")) k plan
              (rw (← found-eq-stored _ q.disk) (rw t at h)))
      | inr f ↦ let none_there : false ≡ true = rw f at h in cc
    ]

-- Once a key is known, it stays known through every operation that leaves the index in memory
-- alone, complete or cut short: a later enqueue of the key answers with a duplicate and writes nothing.
pub enqueue-after :
    (iso : ℕ → String) (cut : String → String) (id now : String) (opts : EnqueueOptions) (k : ℕ)
    {q : DurableQueue} {ws : List Write}
    → Planned iso cut q ws
    → q.ready ≡ true
    → is_some (known_job opts.idempotency_key q) ≡ true
    → ((enqueue id now opts (write_all q (take k ws))).0 ≡ write_all q (take k ws))
      × ((enqueue id now opts (write_all q (take k ws))).2 ≡ true)
enqueue-after iso cut id now opts k {q} {ws} plan r h =
    elim (Option-cases (known_job opts.idempotency_key (write_all q (take k ws)))) [
      | inl e ↦
          let there = known-after iso cut opts.idempotency_key k plan h in
          let gone : false ≡ true = rw e at there in cc
      | inr (job, e) ↦
          let same = enqueue-known id now opts (write_all q (take k ws)) r e in (rw same, rw same)
    ]
