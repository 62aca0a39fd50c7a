-- ===== src/Runtime/Queue/Safety.antt =====
-- packages/runtime/src/queue.ts: where a job's file is when an operation is interrupted.
use qev_platform.Base.{
  ℕ, zero, suc, String, ◌≡◌, refl, true, false, none, List, [], ◌∷◌, arith, inl, inr, leb, take-nil,
  take-length, length, Assoc, lookup, take, lookup-insert, lookup-erase, Option-cases, Bool-cases,
}
use qev_platform.Runtime.Queue.{
  DurableQueue, enqueue_writes, init_writes, init, complete_writes, fail_writes, replay_writes,
  recover_writes, claimed, new_job,
}
use qev_platform.Runtime.Queue.Files.{
  QueueJob, Folder, in_pending, in_processing, in_done, in_dead, Disk, Write, put, remove, rename,
  save_index, file, file_name, run_write, run_writes, same_folder, file-put, file-remove,
  file-save_index,
}
use qev_platform.Runtime.Queue.Plans.{
  Planned, enqueues, claims, completes, fails, replays, works, recovers, Works, stored,
}

stored-put :
    (f : Folder) (n m : String) (j : QueueJob) (d : Disk)
    → stored m d ≡ true
    → stored m (run_write (put f n j) d) ≡ true
unfolding stored
stored-put in_pending n m j d h = simp file-put (ground arith)
stored-put _ n m j d h = simp file-put (ground arith)

-- The file that was just written elsewhere may be removed.
stored-remove :
    (f g : Folder) (n m : String) (j : QueueJob) (d : Disk)
    → same_folder f g ≡ false
    → stored m d ≡ true
    → stored m (run_write (remove f n) (run_write (put g n j) d)) ≡ true
unfolding stored
stored-remove in_pending in_pending n m j d e h = cc
stored-remove in_pending _ n m j d e h = simp (file-remove, file-put) (ground arith)
stored-remove in_processing in_pending n m j d e h = simp (file-remove, file-put) (ground arith)
stored-remove in_processing _ n m j d e h = simp (file-remove, file-put) (ground arith)
stored-remove in_done in_pending n m j d e h = simp (file-remove, file-put) (ground arith)
stored-remove in_done _ n m j d e h = simp (file-remove, file-put) (ground arith)
stored-remove in_dead in_pending n m j d e h = simp (file-remove, file-put) (ground arith)
stored-remove in_dead _ n m j d e h = simp (file-remove, file-put) (ground arith)

-- An interrupted move has written the file at its new place, or has not begun.
move_crash :
    (f g : Folder) (n m : String) (j : QueueJob) (d : Disk) (k : ℕ)
    → same_folder f g ≡ false
    → stored m d ≡ true
    → stored m (run_writes (take k (put g n j ∷ remove f n ∷ [])) d) ≡ true
unfolding run_writes
move_crash f g n m j d zero e h = h
move_crash f g n m j d (suc zero) e h = stored-put g n m j d h
move_crash f g n m j d (suc (suc zero)) e h = stored-remove f g n m j d e h
move_crash f g n m j d (suc (suc (suc k))) e h = stored-remove f g n m j d e h

stored-rename :
    (n m : String) (j : QueueJob) (d : Disk)
    → stored m d ≡ true
    → stored m (run_write (rename in_processing in_pending n j) d) ≡ true
unfolding stored file run_write
stored-rename n m j d h = simp (lookup-insert, lookup-erase) (ground arith)

stored-recover :
    (entries : Assoc QueueJob) (m : String) (d : Disk) (k : ℕ)
    → stored m d ≡ true
    → stored m (run_writes (take k (recover_writes entries)) d) ≡ true
unfolding run_writes
stored-recover entries m d zero h = h
stored-recover [] m d (suc k) h = h
stored-recover ((n, j) ∷ rest) m d (suc k) h =
    stored-recover rest m (run_write (rename in_processing in_pending n j) d) k
      (stored-rename n m j d h)

stored-save_index :
    (x : Assoc String) (m : String) (d : Disk)
    → stored m d ≡ true
    → stored m (run_write (save_index x) d) ≡ true
unfolding stored
stored-save_index x m d h = simp file-save_index h

stored-enqueue :
    (q : DurableQueue) (job : QueueJob) (m : String) (k : ℕ)
    → stored m q.disk ≡ true
    → stored m (run_writes (take k (enqueue_writes q job)) q.disk) ≡ true
unfolding run_writes
stored-enqueue q job m zero h = h
stored-enqueue q job m (suc zero) h = stored-save_index _ m q.disk h
stored-enqueue q job m (suc (suc zero)) h =
    stored-put in_pending (file_name job.id) m job _ (stored-save_index _ m q.disk h)
stored-enqueue q job m (suc (suc (suc k))) h =
    stored-put in_pending (file_name job.id) m job _ (stored-save_index _ m q.disk h)

stored-nothing :
    (m : String) (d : Disk) (k : ℕ) → stored m d ≡ true → stored m (run_writes (take k []) d) ≡ true
unfolding run_writes
stored-nothing m d k h = rw take-nil h

stored_complete :
    (id now m : String) (d : Disk) (k : ℕ)
    → stored m d ≡ true
    → stored m (run_writes (take k (complete_writes id now d)) d) ≡ true
unfolding complete_writes
stored_complete id now m d k h = elim (Option-cases (file in_processing (file_name id) d)) [
  | inl e ↦ rw (e, complete_writes) (stored-nothing m d k h)
  | inr (job, e) ↦
      rw (e, complete_writes) (move_crash in_processing in_done (file_name id) m _ d k refl h)
]

stored-replay :
    (id now m : String) (d : Disk) (k : ℕ)
    → stored m d ≡ true
    → stored m (run_writes (take k (replay_writes id now d)) d) ≡ true
unfolding replay_writes
stored-replay id now m d k h = elim (Option-cases (file in_dead (file_name id) d)) [
  | inl e ↦ rw (e, replay_writes) (stored-nothing m d k h)
  | inr (job, e) ↦
      rw (e, replay_writes) (move_crash in_dead in_pending (file_name id) m _ d k refl h)
]

module _ (iso : ℕ → String) (cut : String → String) where
  stored-fail :
      (id : String) (now : ℕ) (error m : String) (d : Disk) (k : ℕ)
      → stored m d ≡ true
      → stored m (run_writes (take k (fail_writes iso cut id now error d)) d) ≡ true
  unfolding fail_writes
  stored-fail id now error m d k h = elim (Option-cases (file in_processing (file_name id) d)) [
    | inl e ↦ rw (e, fail_writes) (stored-nothing m d k h)
    | inr (job, e) ↦
        rw (e, fail_writes)
          (elim (Bool-cases (leb job.max_attempts job.attempts)) [
            | inl over ↦ rw over (move_crash in_processing in_dead (file_name id) m _ d k refl h)
            | inr left ↦ rw left (move_crash in_processing in_pending (file_name id) m _ d k refl h)
          ])
  ]

  crash-stored-Works :
      {q : DurableQueue} {ws : List Write} (m : String) (k : ℕ)
      → Works iso cut q ws
      → stored m q.disk ≡ true
      → stored m (run_writes (take k ws) q.disk) ≡ true
  crash-stored-Works {q} m k (enqueues id now opts fresh) h =
      stored-enqueue q (new_job id now opts) m k h
  crash-stored-Works {q} m k (claims now name job e) h =
      move_crash in_pending in_processing name m (claimed now job) q.disk k refl h
  crash-stored-Works {q} m k (completes id now) h = stored_complete id now m q.disk k h
  crash-stored-Works {q} m k (fails id now error) h = stored-fail id now error m q.disk k h
  crash-stored-Works {q} m k (replays id now) h = stored-replay id now m q.disk k h

  -- Whatever operation the queue performs, and after however many of its writes the process stops,
  -- a file that some directory held before is still held by some directory.
  pub crash-stored :
      {q : DurableQueue} {ws : List Write} (m : String) (k : ℕ)
      → Planned iso cut q ws
      → stored m q.disk ≡ true
      → stored m (run_writes (take k ws) q.disk) ≡ true
  unfolding init_writes
  crash-stored m k (works w) h = crash-stored-Works m k w h
  crash-stored {q} m k recovers h = stored-recover q.disk.processing_dir m q.disk k h

-- After the writes of init no file is left in processing.
recover-processing :
    (entries : Assoc QueueJob) (n : String) (d : Disk)
    → (lookup n entries ≡ none → file in_processing n d ≡ none)
    → file in_processing n (run_writes (recover_writes entries) d) ≡ none
unfolding run_writes lookup
recover-processing [] n d h = h refl
recover-processing ((m, j) ∷ rest) n d h =
    recover-processing rest n (run_write (rename in_processing in_pending m j) d)
      (λ missing. unfold run_write file in simp lookup-erase (ground (arith, h, missing)))

init-processing : (q : DurableQueue) (n : String) → file in_processing n (init q).disk ≡ none
unfolding init
init-processing q n =
    recover-processing q.disk.processing_dir n q.disk (λ missing. unfold file in missing)

module _ (iso : ℕ → String) (cut : String → String) where
  -- After a crash at any write of any operation and a restart, no file is in processing, and every
  -- file that was stored before is in pending, in done or in dead.
  pub restart-stored :
      {q : DurableQueue} {ws : List Write} (m : String) (k : ℕ) (memory : DurableQueue)
      → Planned iso cut q ws
      → memory.disk ≡ run_writes (take k ws) q.disk
      → stored m q.disk ≡ true
      → (file in_processing m (init memory).disk ≡ none) × (stored m (init memory).disk ≡ true)
  unfolding init init_writes
  restart-stored {q} {ws} m k memory plan same h = (
    init-processing memory m,
    rw take-length at (
        stored-recover memory.disk.processing_dir m memory.disk
          (length (recover_writes memory.disk.processing_dir))
          (rw same (crash-stored iso cut m k plan h))),
  )
