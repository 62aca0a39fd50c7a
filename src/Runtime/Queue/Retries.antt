-- ===== src/Runtime/Queue/Retries.antt =====
-- packages/runtime/src/queue.ts: attempts, and the files of each directory.
use qev_platform.Base.{
  ℕ, zero, suc, ◌≤◌, ◌<◌, ◌⊎◌, take, take-nil, String, ◌≡◌, refl, some, List, [], ◌∷◌, arith, inl,
  inr, or_else, Assoc, insert, All, All-insert, All-erase, lookup-All, All-sort_by, sort_by,
  Option-cases, Bool-cases, leb, leb→le,
}
use qev_platform.Runtime.Queue.{
  DurableQueue, EnqueueOptions, new_job, enqueue_writes, next_file, claim_writes, claimed,
  complete_writes, fail_writes, replay_writes, init_writes, recover_writes, name_lt,
}
use qev_platform.Runtime.Queue.Files.{
  pending, processing, done, dead, QueueJob, Folder, in_pending, in_processing, in_done, in_dead,
  Disk, Write, put, remove, rename, save_index, dir, file, file_name, run_write, run_writes,
}
use qev_platform.Runtime.Queue.Order.{first_due-All}
use qev_platform.Runtime.Queue.Plans.{
  Planned, works, recovers, enqueues, claims, completes, fails, replays,
}

-- A job that a restart put back to pending still has the status and the attempts of its claim.
abbrev pub FitsFolder : Folder → QueueJob → Type 0
FitsFolder in_pending j =
    ((j.status ≡ pending) × (j.attempts < j.max_attempts))
    ⊎ ((j.status ≡ processing) × (0 < j.attempts))
FitsFolder in_processing j = (j.status ≡ processing) × (0 < j.attempts)
FitsFolder in_done j = (j.status ≡ done) × (0 < j.attempts)
FitsFolder in_dead j = (j.status ≡ dead) × (j.max_attempts ≤ j.attempts)

-- The file is named for its job, which may be tried at least once, and its status and attempts fit the
-- directory.
pub record IsFiled (f : Folder) (n : String) (j : QueueJob) : Type 0 where
  pub named : n ≡ file_name j.id
  pub limit : 0 < j.max_attempts
  pub fits : FitsFolder f j

pub record IsSound (d : Disk) : Type 0 where
  pub at : (f : Folder) → All (λ e. IsFiled f e.0 e.1) (dir d f)

file-IsFiled :
    (f : Folder) (n : String) {j : QueueJob} (d : Disk)
    → file f n d ≡ some j
    → IsSound d
    → IsFiled f n j
unfolding file
file-IsFiled f n d e h = lookup-All (λ e. IsFiled f e.0 e.1) n (dir d f) e (h.at f)

module _ (n : String) (j : QueueJob) (d : Disk) where
  put-at :
      (f : Folder)
      → IsFiled f n j
      → IsSound d
      → (g : Folder) → All (λ e. IsFiled g e.0 e.1) (dir (run_write (put f n j) d) g)
  unfolding run_write
  put-at in_pending new h in_pending = All-insert _ n j d.pending_dir new (h.at in_pending)
  put-at in_processing new h in_processing =
      All-insert _ n j d.processing_dir new (h.at in_processing)
  put-at in_done new h in_done = All-insert _ n j d.done_dir new (h.at in_done)
  put-at in_dead new h in_dead = All-insert _ n j d.dead_dir new (h.at in_dead)
  put-at _ new h in_pending = h.at in_pending
  put-at _ new h g = h.at g

module _ (n : String) (d : Disk) where
  remove-at :
      (f : Folder)
      → IsSound d
      → (g : Folder) → All (λ e. IsFiled g e.0 e.1) (dir (run_write (remove f n) d) g)
  unfolding run_write
  remove-at in_pending h in_pending = All-erase _ n d.pending_dir (h.at in_pending)
  remove-at in_processing h in_processing = All-erase _ n d.processing_dir (h.at in_processing)
  remove-at in_done h in_done = All-erase _ n d.done_dir (h.at in_done)
  remove-at in_dead h in_dead = All-erase _ n d.dead_dir (h.at in_dead)
  remove-at _ h in_pending = h.at in_pending
  remove-at _ h g = h.at g

save_index-at :
    (x : Assoc String) (d : Disk)
    → IsSound d
    → (g : Folder) → All (λ e. IsFiled g e.0 e.1) (dir (run_write (save_index x) d) g)
unfolding run_write
save_index-at x d h in_pending = h.at in_pending
save_index-at x d h g = h.at g

rename-IsSound :
    (n : String) (j : QueueJob) (d : Disk)
    → IsFiled in_processing n j
    → IsSound d
    → IsSound (run_write (rename in_processing in_pending n j) d)
unfolding run_write
rename-IsSound n j d filed h =
    let put_back =
      put-at n j d in_pending
        (record { named = filed.named; limit = filed.limit; fits = inr filed.fits }) h in
    record {
      at = remove-at n (run_write (put in_pending n j) d) in_processing (record { at = put_back });
    }

-- A move keeps the files sound, wherever it is interrupted.
move-IsSound :
    (f g : Folder) (n : String) (j : QueueJob) (d : Disk) (k : ℕ)
    → IsFiled g n j
    → IsSound d
    → IsSound (run_writes (take k (put g n j ∷ remove f n ∷ [])) d)
unfolding run_writes
move-IsSound f g n j d zero new h = h
move-IsSound f g n j d (suc zero) new h = record { at = put-at n j d g new h }
move-IsSound f g n j d (suc (suc zero)) new h = record {
  at = remove-at n (run_write (put g n j) d) f (record { at = put-at n j d g new h });
}
move-IsSound f g n j d (suc (suc (suc k))) new h = record {
  at = remove-at n (run_write (put g n j) d) f (record { at = put-at n j d g new h });
}

nothing-IsSound : (k : ℕ) (d : Disk) → IsSound d → IsSound (run_writes (take k []) d)
unfolding run_writes
nothing-IsSound k d h = rw (take-nil {A = Write} k) h

enqueue-IsSound :
    (q : DurableQueue) (id now : String) (opts : EnqueueOptions) (k : ℕ)
    → 0 < or_else opts.max_attempts 5
    → IsSound q.disk
    → IsSound (run_writes (take k (enqueue_writes q (new_job id now opts))) q.disk)
unfolding run_writes
enqueue-IsSound q id now opts k pos h =
    let index = insert opts.idempotency_key id q.idempo in
    let indexed : IsSound (run_write (save_index index) q.disk) = record {
      at = save_index-at index q.disk h;
    } in
    let added : IsSound (
        run_write (put in_pending (file_name id) (new_job id now opts))
          (run_write (save_index index) q.disk)) =
      record {
        at =
            put-at (file_name id) (new_job id now opts) (run_write (save_index index) q.disk)
              in_pending (record { named = refl; limit = pos; fits = inl (refl, pos) }) indexed;
      } in
    elim k as (λ k. IsSound (run_writes (take k (enqueue_writes q (new_job id now opts))) q.disk)) [
      | zero ↦ h
      | suc k ↦
          elim k
            as (λ k.
              IsSound (run_writes (take (suc k) (enqueue_writes q (new_job id now opts))) q.disk)) [
                | zero ↦ indexed
                | suc k ↦ rw (take-nil {A = Write} k) added
              ]
    ]

-- A pending file that is claimed was filed there.
pub claimed-IsFiled :
    (now n : String) (j : QueueJob) (d : Disk)
    → next_file now d ≡ some (n, j)
    → IsSound d
    → IsFiled in_pending n j
unfolding next_file
claimed-IsFiled now n j d e h =
    (first_due-All now (λ e. IsFiled in_pending e.0 e.1) (sort_by name_lt d.pending_dir) (n, j) e
      (All-sort_by name_lt (λ e. IsFiled in_pending e.0 e.1) d.pending_dir (h.at in_pending))).0

claim-IsSound :
    (now n : String) (j : QueueJob) (d : Disk) (k : ℕ)
    → next_file now d ≡ some (n, j)
    → IsSound d
    → IsSound (run_writes (take k (claim_writes now n j)) d)
claim-IsSound now n j d k e h =
    let f = claimed-IsFiled now n j d e h in
    move-IsSound in_pending in_processing n (claimed now j) d k
      (record { named = f.named; limit = f.limit; fits = (refl, omega arith) }) h

complete-IsSound :
    (id now : String) (d : Disk) (k : ℕ)
    → IsSound d
    → IsSound (run_writes (take k (complete_writes id now d)) d)
unfolding complete_writes
complete-IsSound id now d k h = elim (Option-cases (file in_processing (file_name id) d)) [
  | inl e ↦ rw (e, complete_writes) (nothing-IsSound k d h)
  | inr (job, e) ↦
      let f = file-IsFiled in_processing (file_name id) d e h in
      rw (e, complete_writes)
        (move-IsSound in_processing in_done (file_name id) _ d k
          (record { named = f.named; limit = f.limit; fits = (refl, f.fits.1) }) h)
]

replay-IsSound :
    (id now : String) (d : Disk) (k : ℕ)
    → IsSound d
    → IsSound (run_writes (take k (replay_writes id now d)) d)
unfolding replay_writes
replay-IsSound id now d k h = elim (Option-cases (file in_dead (file_name id) d)) [
  | inl e ↦ rw (e, replay_writes) (nothing-IsSound k d h)
  | inr (job, e) ↦
      let f = file-IsFiled in_dead (file_name id) d e h in
      rw (e, replay_writes)
        (move-IsSound in_dead in_pending (file_name id) _ d k
          (record { named = f.named; limit = f.limit; fits = inl (refl, f.limit) }) h)
]

recover-IsSound :
    (es : Assoc QueueJob) (d : Disk) (k : ℕ)
    → All (λ e. IsFiled in_processing e.0 e.1) es
    → IsSound d
    → IsSound (run_writes (take k (recover_writes es)) d)
unfolding run_writes
recover-IsSound [] d k filed h = rw (take-nil {A = Write} k) h
recover-IsSound ((n, j) ∷ es) d zero filed h = h
recover-IsSound ((n, j) ∷ es) d (suc k) filed h =
    recover-IsSound es (run_write (rename in_processing in_pending n j) d) k filed.1
      (rename-IsSound n j d filed.0 h)

module _ (iso : ℕ → String) (cut : String → String) where
  fail-IsSound :
      (id : String) (now : ℕ) (error : String) (d : Disk) (k : ℕ)
      → IsSound d
      → IsSound (run_writes (take k (fail_writes iso cut id now error d)) d)
  unfolding fail_writes
  fail-IsSound id now error d k h = elim (Option-cases (file in_processing (file_name id) d)) [
    | inl e ↦ rw (e, fail_writes) (nothing-IsSound k d h)
    | inr (job, e) ↦
        let f = file-IsFiled in_processing (file_name id) d e h in
        rw (e, fail_writes)
          (elim (Bool-cases (leb job.max_attempts job.attempts)) [
            | inl over ↦ rw over (
                move-IsSound in_processing in_dead (file_name id) _ d k
                  (record { named = f.named; limit = f.limit; fits = (refl, leb→le _ _ over) }) h)
            | inr left ↦ rw left (
                move-IsSound in_processing in_pending (file_name id) _ d k
                  (record {
                    named = f.named;
                    limit = f.limit;
                    fits = inl (refl, ground (arith, left));
                  })
                  h)
          ])
  ]

  -- The limit that an enqueue sets, five if none is given, is at least one.
  abbrev pub HasRoom : {q : DurableQueue} {ws : List Write} → Planned iso cut q ws → Type 0
  HasRoom (works (enqueues id now opts fresh)) = 0 < or_else opts.max_attempts 5
  HasRoom _ = Unit

  -- Every operation of the queue, and a restart, keeps the files sound, after however many of its
  -- writes it stops, provided that an enqueue sets a limit of at least one attempt. Sound means: a
  -- file is named for its job; a job in processing, done or dead has that status, and was claimed
  -- at least once; a dead job has used up its limit; and a pending job has attempts left, unless
  -- its status says that it was interrupted in processing and put back.
  pub Planned-IsSound :
      {q : DurableQueue} {ws : List Write} (k : ℕ) (w : Planned iso cut q ws)
      → HasRoom w
      → IsSound q.disk
      → IsSound (run_writes (take k ws) q.disk)
  unfolding init_writes
  Planned-IsSound {q} k (works (enqueues id now opts fresh)) room h =
      enqueue-IsSound q id now opts k room h
  Planned-IsSound {q} k (works (claims now n j e)) room h = claim-IsSound now n j q.disk k e h
  Planned-IsSound {q} k (works (completes id now)) room h = complete-IsSound id now q.disk k h
  Planned-IsSound {q} k (works (fails id now error)) room h = fail-IsSound id now error q.disk k h
  Planned-IsSound {q} k (works (replays id now)) room h = replay-IsSound id now q.disk k h
  Planned-IsSound {q} k recovers room h =
      recover-IsSound q.disk.processing_dir q.disk k (h.at in_processing) h
