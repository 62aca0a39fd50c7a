-- ===== src/Runtime/Queue/Draining.antt =====
-- packages/runtime/src/queue.ts: how often the jobs that are pending can be claimed.
use mathlib.Core.Path.{subst}
use qev_platform.Base.{
  ℕ, suc, List, length, take-length, ◌+◌, ◌-◌, ◌≤◌, String, ◌≡◌, refl, sym, ◌∙◌, true, Option, none,
  some, [], ◌∷◌, leb, arith, inl, inr, Bool-cases, Option-cases, Assoc, insert, erase,
  lookup-insert, eq_refl, All, All-map, All-sort_by, sort_by,
}
use qev_platform.Runtime.Queue.{
  DurableQueue, init, ensure_ready, write_all, claimed, name_lt, next_file, claim_writes,
  claim_ready, claim_next, complete_writes, complete, fail_writes, fail, postponed,
}
use qev_platform.Runtime.Queue.Files.{
  QueueJob, in_processing, Disk, Write, file, file_name, run_write, run_writes,
}
use qev_platform.Runtime.Queue.Order.{first_due-All}
use qev_platform.Runtime.Queue.Plans.{Planned, works, recovers, claims, completes, fails}
use qev_platform.Runtime.Queue.Retries.{IsSound, HasRoom, Planned-IsSound, claimed-IsFiled}

-- How often a job can still be claimed, once at least, and how often all jobs of a directory.
abbrev pub attempts_left : QueueJob → ℕ
attempts_left j = suc (j.max_attempts - suc j.attempts)

abbrev pub all_left : Assoc QueueJob → ℕ
all_left [] = 0
all_left ((n, j) ∷ m) = attempts_left j + all_left m

erase-le : (k : String) (m : Assoc QueueJob) → all_left (erase k m) ≤ all_left m
unfolding erase
erase-le k [] = omega arith
erase-le k ((n, j) ∷ m) = ground (arith, erase-le k m)

insert-le :
    (k : String) (v : QueueJob) (m : Assoc QueueJob)
    → all_left (insert k v m) ≤ all_left m + attempts_left v
unfolding insert
insert-le k v [] = omega arith
insert-le k v ((n, j) ∷ m) = ground (arith, insert-le k v m)

erase-tail :
    (n : String) (j : QueueJob) (m : Assoc QueueJob) (e : String × QueueJob)
    → all_left (erase e.0 m) + attempts_left e.1 ≤ all_left m
    → all_left (erase e.0 ((n, j) ∷ m)) + attempts_left e.1 ≤ all_left ((n, j) ∷ m)
unfolding erase
erase-tail n j m e h = ground (arith, h)

-- Taking an entry away takes its attempts away.
erase-All :
    (m : Assoc QueueJob) → All (λ e. all_left (erase e.0 m) + attempts_left e.1 ≤ all_left m) m
unfolding erase
erase-All [] = tt
erase-All ((n, j) ∷ m) =
    (rw (eq_refl n) (omega (arith, erase-le n m)), All-map (erase-tail n j m) m (erase-All m))

claimed-left :
    (now name : String) (job : QueueJob) (d : Disk)
    → next_file now d ≡ some (name, job)
    → all_left (erase name d.pending_dir) + attempts_left job ≤ all_left d.pending_dir
unfolding next_file
claimed-left now name job d h =
    (first_due-All now
      (λ e. all_left (erase e.0 d.pending_dir) + attempts_left e.1 ≤ all_left d.pending_dir)
      (sort_by name_lt d.pending_dir) (name, job) h
      (All-sort_by name_lt
        (λ e. all_left (erase e.0 d.pending_dir) + attempts_left e.1 ≤ all_left d.pending_dir)
        d.pending_dir (erase-All d.pending_dir))).0

claim-found :
    (now : String) (q c : DurableQueue) (job : QueueJob)
    → claim_ready now q ≡ (c, some job)
    → (name : String) × (old : QueueJob) × (next_file now q.disk ≡ some (name, old))
      × (c ≡ write_all q (claim_writes now name old))
      × (job ≡ claimed now old)
unfolding claim_ready
claim-found now q c job h = elim (Option-cases (next_file now q.disk)) [
  | inl e ↦
      let none_left : ◌≡◌ {A = DurableQueue × Option QueueJob} (q, none) (c, some job) =
        rw (e, claim_ready) at h in
      absurd cc
  | inr ((name, old), e) ↦
      let got : ◌≡◌ {A = DurableQueue × Option QueueJob}
          (write_all q (claim_writes now name old), some (claimed now old)) (c, some job) =
        rw (e, claim_ready) at h in
      (name, old, e, cc, cc)
]

module _ (iso : ℕ → String) (cut : String → String) where
  -- A worker takes the next job that is due, and completes or fails it.
  pub data Round (q : DurableQueue) : DurableQueue → Type 0 where
    completes_job :
        (now later : String) (c : DurableQueue) (job : QueueJob)
        → claim_next now q ≡ (c, some job)
        → Round q (complete job.id later c)
    fails_job :
        (now : String) (at : ℕ) (error : String) (c : DurableQueue) (job : QueueJob)
        → claim_next now q ≡ (c, some job)
        → Round q (fail iso cut job.id at error c)

  pub data Rounds : DurableQueue → ℕ → DurableQueue → Type 0 where
    stops : {q : DurableQueue} → Rounds q 0 q
    goes_on : {q r t : DurableQueue} {n : ℕ} → Round q r → Rounds r n t → Rounds q (suc n) t

  -- What holds after one round: the queue is ready and sound, and an attempt has been used up.
  Spent : DurableQueue → DurableQueue → Type 0
  Spent q r =
      (r.ready ≡ true)
      × IsSound r.disk
      × (suc (all_left r.disk.pending_dir) ≤ all_left (ensure_ready q).disk.pending_dir)

  complete-pending :
      (id now : String) (d : Disk)
      → (run_writes (complete_writes id now d) d).pending_dir ≡ d.pending_dir
  unfolding complete_writes run_writes run_write
  complete-pending id now d = elim (Option-cases (file in_processing (file_name id) d)) [
    | inl e ↦ rw (e, complete_writes) refl
    | inr (job, e) ↦ rw (e, complete_writes) refl
  ]

  fail-pending :
      (id : String) (at : ℕ) (error : String) (d : Disk) (job : QueueJob)
      → file in_processing (file_name id) d ≡ some job
      → all_left (run_writes (fail_writes iso cut id at error d) d).pending_dir
        ≤ all_left d.pending_dir + (job.max_attempts - job.attempts)
  unfolding fail_writes run_writes run_write
  fail-pending id at error d job e =
      rw (e, fail_writes)
        (elim (Bool-cases (leb job.max_attempts job.attempts)) [
          | inl over ↦ rw over (omega arith)
          | inr room ↦
              let added = insert-le (file_name id) (postponed iso cut at error job) d.pending_dir in
              rw room (ground (arith, room, added))
        ])

  -- An operation that is not interrupted.
  whole-IsSound :
      {q : DurableQueue} {ws : List Write} (w : Planned iso cut q ws)
      → HasRoom iso cut w
      → IsSound q.disk
      → IsSound (run_writes ws q.disk)
  whole-IsSound {q} {ws} w room sound =
      subst (λ vs. IsSound (run_writes vs q.disk)) (take-length ws)
        (Planned-IsSound iso cut {q = q} (length ws) w room sound)

  ensure_ready-IsSound :
      (q : DurableQueue)
      → IsSound q.disk
      → ((ensure_ready q).ready ≡ true) × IsSound (ensure_ready q).disk
  unfolding init
  ensure_ready-IsSound q sound = elim (Bool-cases q.ready) [
    | inl e ↦ rw e (refl, sound)
    | inr e ↦ rw e (refl, whole-IsSound {q = q} recovers tt sound)
  ]

  ClaimSpent : DurableQueue → DurableQueue → QueueJob → Type 0
  ClaimSpent q c job =
      (c.ready ≡ true)
      × IsSound c.disk
      × (file in_processing (file_name job.id) c.disk ≡ some job)
      × (all_left c.disk.pending_dir + suc (job.max_attempts - job.attempts)
          ≤ all_left q.disk.pending_dir)

  claim_writes-Spent :
      (now name : String) (old : QueueJob) (q : DurableQueue)
      → next_file now q.disk ≡ some (name, old)
      → q.ready ≡ true
      → IsSound q.disk
      → ClaimSpent q (write_all q (claim_writes now name old)) (claimed now old)
  unfolding run_writes run_write file ClaimSpent
  claim_writes-Spent now name old q e ready sound =
      let filed = claimed-IsFiled now name old q.disk e sound in
      (
        ready,
        whole-IsSound {q = q} (works (claims now name old e)) tt sound,
        rw (← filed.named) (
            lookup-insert name name (claimed now old) q.disk.processing_dir
            ∙ rw (eq_refl name) refl),
        omega (arith, claimed-left now name old q.disk e),
      )

  -- A claim takes the job out of pending, with at least one of its attempts.
  claim-Spent :
      (now : String) (q c : DurableQueue) (job : QueueJob)
      → IsSound q.disk
      → claim_next now q ≡ (c, some job)
      → ClaimSpent (ensure_ready q) c job
  unfolding claim_next
  claim-Spent now q c job sound h =
      let (ready, opened) = ensure_ready-IsSound q sound in
      let (name, old, e, is_c, is_job) = claim-found now (ensure_ready q) c job h in
      let spent = claim_writes-Spent now name old (ensure_ready q) e ready opened in
      subst (λ d. ClaimSpent (ensure_ready q) d job) (sym is_c)
        (subst
          (λ j.
            ClaimSpent (ensure_ready q) (write_all (ensure_ready q) (claim_writes now name old)) j)
          (sym is_job) spent)

  Round-Spent : (q r : DurableQueue) → Round q r → IsSound q.disk → Spent q r
  unfolding complete fail Spent ClaimSpent
  Round-Spent q _ (completes_job now later c job h) sound =
      let (ready_c, sound_c, at, left) = claim-Spent now q c job sound h in
      (
        ready_c,
        whole-IsSound {q = c} (works (completes job.id later)) tt sound_c,
        rw (complete-pending job.id later c.disk) (omega (arith, left)),
      )
  Round-Spent q _ (fails_job now at error c job h) sound =
      let (ready_c, sound_c, found, left) = claim-Spent now q c job sound h in
      (
        ready_c,
        whole-IsSound {q = c} (works (fails job.id at error)) tt sound_c,
        omega (arith, left, fail-pending job.id at error c.disk job found),
      )

  -- A worker takes the next due job, and completes or fails it, from a queue whose files are sound, as
  -- every operation and restart keeps them. It stops after at most as many rounds as the pending
  -- jobs can be claimed, those counted too that its start puts back: a job as often as it has
  -- attempts left, and once where an interruption used up the last. So no job is tried for ever,
  -- however the jobs end and whatever the times are.
  pub Rounds-bounded :
      (q t : DurableQueue) (n : ℕ)
      → Rounds q n t
      → IsSound q.disk
      → n + all_left (ensure_ready t).disk.pending_dir ≤ all_left (ensure_ready q).disk.pending_dir
  unfolding Spent
  Rounds-bounded q _ _ stops sound = omega arith
  Rounds-bounded q t (suc n) (goes_on {r = r} round rounds) sound =
      let (ready_r, sound_r, spent) = Round-Spent q r round sound in
      let opened : ensure_ready r ≡ r = rw ready_r refl in
      let rest = Rounds-bounded r t n rounds sound_r in
      let after : n + all_left (ensure_ready t).disk.pending_dir ≤ all_left r.disk.pending_dir =
        subst (λ u. n + all_left (ensure_ready t).disk.pending_dir ≤ all_left u.disk.pending_dir)
          opened rest in
      omega (arith, spent, after)
