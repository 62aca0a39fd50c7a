-- ===== src/Runtime/Queue/Exclusive.antt =====
-- packages/runtime/src/queue.ts: in how many directories a job's file stands.
use qev_platform.Base.{
  ℕ, ◌+◌, ◌≤◌, String, ◌≡◌, refl, Bool, true, false, none, some, List, [], ◌∷◌, arith, inl, inr,
  eq_iff, is_some, Assoc, All, All-map, All-sort_by, lookup, All-lookup, lookup-insert,
  lookup-erase, Option-cases, Bool-cases, leb, sort_by,
}
use qev_platform.Runtime.Queue.{
  DurableQueue, new_job, enqueue_writes, init_writes, next_file, complete_writes, claimed,
  fail_writes, replay_writes, recover_writes, name_lt,
}
use qev_platform.Runtime.Queue.Files.{
  QueueJob, Folder, in_pending, in_processing, in_done, in_dead, Disk, Write, put, remove, rename,
  file, file_name, run_write, run_writes, same_folder, file-put, file-remove, file-save_index,
}
use qev_platform.Runtime.Queue.Order.{first_due-All}
use qev_platform.Runtime.Queue.Plans.{
  enqueues, claims, completes, fails, replays, Planned, works, recovers,
}

abbrev one_if : Bool → ℕ
one_if true = 1
one_if false = 0

-- How many directories hold the file.
unfoldable pub copies : String → Disk → ℕ
copies n d =
    one_if (is_some (file in_pending n d))
    + one_if (is_some (file in_processing n d))
    + one_if (is_some (file in_done n d))
    + one_if (is_some (file in_dead n d))

pub record IsExclusive (d : Disk) : Type 0 where
  pub at : (n : String) → copies n d ≤ 1

copies-move :
    (f g : Folder) (n m : String) (j : QueueJob) (d : Disk)
    → same_folder f g ≡ false
    → is_some (file f n d) ≡ true
    → copies m d ≤ 1
    → copies m (run_writes (put g n j ∷ remove f n ∷ []) d) ≤ 1
unfolding copies run_writes
copies-move in_pending in_pending n m j d e s h = cc
copies-move in_pending _ n m j d e s h = simp (file-remove, file-put) (ground (arith, eq_iff n m))
copies-move in_processing in_pending n m j d e s h =
    simp (file-remove, file-put) (ground (arith, eq_iff n m))
copies-move in_processing _ n m j d e s h =
    simp (file-remove, file-put) (ground (arith, eq_iff n m))
copies-move in_done in_pending n m j d e s h =
    simp (file-remove, file-put) (ground (arith, eq_iff n m))
copies-move in_done _ n m j d e s h = simp (file-remove, file-put) (ground (arith, eq_iff n m))
copies-move in_dead in_pending n m j d e s h =
    simp (file-remove, file-put) (ground (arith, eq_iff n m))
copies-move in_dead _ n m j d e s h = simp (file-remove, file-put) (ground (arith, eq_iff n m))

move-IsExclusive :
    (f g : Folder) (n : String) (j found : QueueJob) (d : Disk)
    → same_folder f g ≡ false
    → file f n d ≡ some found
    → IsExclusive d
    → IsExclusive (run_writes (put g n j ∷ remove f n ∷ []) d)
move-IsExclusive f g n j found d e there h = record {
  at = λ m. copies-move f g n m j d e (rw there) (h.at m);
}

nothing-IsExclusive : (d : Disk) → IsExclusive d → IsExclusive (run_writes [] d)
unfolding run_writes
nothing-IsExclusive d h = h

-- A pending file that is claimed is there.
claimed_file :
    (now n : String) (j : QueueJob) (d : Disk)
    → next_file now d ≡ some (n, j)
    → is_some (file in_pending n d) ≡ true
unfolding next_file file
claimed_file now n j d h =
    (first_due-All now (λ e. is_some (lookup e.0 d.pending_dir) ≡ true)
      (sort_by name_lt d.pending_dir) (n, j) h
      (All-sort_by name_lt (λ e. is_some (lookup e.0 d.pending_dir) ≡ true) d.pending_dir
        (All-lookup d.pending_dir))).0

enqueue-IsExclusive :
    (q : DurableQueue) (job : QueueJob)
    → ((f : Folder) → file f (file_name job.id) q.disk ≡ none)
    → IsExclusive q.disk
    → IsExclusive (run_writes (enqueue_writes q job) q.disk)
unfolding copies run_writes
enqueue-IsExclusive q job fresh h = record {
  at = λ m.
      simp (file-put, file-save_index)
        (ground (
          arith,
          eq_iff (file_name job.id) m,
          h.at m,
          fresh in_pending,
          fresh in_processing,
          fresh in_done,
          fresh in_dead,
        ));
}

complete-IsExclusive :
    (id now : String) (d : Disk)
    → IsExclusive d
    → IsExclusive (run_writes (complete_writes id now d) d)
unfolding complete_writes
complete-IsExclusive id now d h = elim (Option-cases (file in_processing (file_name id) d)) [
  | inl e ↦ rw (e, complete_writes) (nothing-IsExclusive d h)
  | inr (job, e) ↦
      rw (e, complete_writes)
        (move-IsExclusive in_processing in_done (file_name id) _ job d refl e h)
]

replay-IsExclusive :
    (id now : String) (d : Disk)
    → IsExclusive d
    → IsExclusive (run_writes (replay_writes id now d) d)
unfolding replay_writes
replay-IsExclusive id now d h = elim (Option-cases (file in_dead (file_name id) d)) [
  | inl e ↦ rw (e, replay_writes) (nothing-IsExclusive d h)
  | inr (job, e) ↦
      rw (e, replay_writes) (move-IsExclusive in_dead in_pending (file_name id) _ job d refl e h)
]

fail-IsExclusive :
    (iso : ℕ → String) (cut : String → String) (id : String) (now : ℕ) (error : String) (d : Disk)
    → IsExclusive d
    → IsExclusive (run_writes (fail_writes iso cut id now error d) d)
unfolding fail_writes
fail-IsExclusive iso cut id now error d h =
    elim (Option-cases (file in_processing (file_name id) d)) [
      | inl e ↦ rw (e, fail_writes) (nothing-IsExclusive d h)
      | inr (job, e) ↦
          rw (e, fail_writes)
            (elim (Bool-cases (leb job.max_attempts job.attempts)) [
              | inl over ↦
                  rw over (move-IsExclusive in_processing in_dead (file_name id) _ job d refl e h)
              | inr left ↦
                  rw left
                    (move-IsExclusive in_processing in_pending (file_name id) _ job d refl e h)
            ])
    ]

-- Files of done and of dead are not among those that a restart renames.
abbrev IsApart : Disk → Assoc QueueJob → Type 0
IsApart d es = All (λ e. (file in_done e.0 d ≡ none) × (file in_dead e.0 d ≡ none)) es

rename-IsApart :
    (n : String) (j : QueueJob) (d : Disk) (es : Assoc QueueJob)
    → IsApart d es
    → IsApart (run_write (rename in_processing in_pending n j) d) es
unfolding file run_write
rename-IsApart n j d es h = All-map (λ e p. p) es h

rename-IsExclusive :
    (n : String) (j : QueueJob) (d : Disk)
    → file in_done n d ≡ none
    → file in_dead n d ≡ none
    → IsExclusive d
    → IsExclusive (run_write (rename in_processing in_pending n j) d)
unfolding copies file run_write
rename-IsExclusive n j d a b h = record {
  at = λ m. simp (lookup-insert, lookup-erase) (ground (arith, eq_iff n m, h.at m));
}

recover-IsExclusive :
    (es : Assoc QueueJob) (d : Disk)
    → IsApart d es
    → IsExclusive d
    → IsExclusive (run_writes (recover_writes es) d)
unfolding run_writes
recover-IsExclusive [] d a h = h
recover-IsExclusive ((n, j) ∷ es) d a h =
    recover-IsExclusive es (run_write (rename in_processing in_pending n j) d)
      (rename-IsApart n j d es a.1) (rename-IsExclusive n j d a.0.0 a.0.1 h)

processing-IsApart : (d : Disk) → IsExclusive d → IsApart d d.processing_dir
unfolding file copies
processing-IsApart d h =
    All-map (λ e there. (ground (arith, h.at e.0), ground (arith, h.at e.0))) d.processing_dir
      (All-lookup d.processing_dir)

module _ (iso : ℕ → String) (cut : String → String) where
  -- Every operation of the queue, and a restart, keeps each job's file in at most one directory.
  pub Planned-IsExclusive :
      {q : DurableQueue} {ws : List Write}
      → Planned iso cut q ws
      → IsExclusive q.disk
      → IsExclusive (run_writes ws q.disk)
  unfolding init_writes
  Planned-IsExclusive {q} (works (enqueues id now opts fresh)) h =
      enqueue-IsExclusive q (new_job id now opts) fresh h
  Planned-IsExclusive {q} (works (claims now n j e)) h = record {
    at = λ m.
        copies-move in_pending in_processing n m (claimed now j) q.disk refl
          (claimed_file now n j q.disk e) (h.at m);
  }
  Planned-IsExclusive {q} (works (completes id now)) h = complete-IsExclusive id now q.disk h
  Planned-IsExclusive {q} (works (fails id now error)) h =
      fail-IsExclusive iso cut id now error q.disk h
  Planned-IsExclusive {q} (works (replays id now)) h = replay-IsExclusive id now q.disk h
  Planned-IsExclusive {q} recovers h =
      recover-IsExclusive q.disk.processing_dir q.disk (processing-IsApart q.disk h) h
