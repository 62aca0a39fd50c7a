-- ===== src/Runtime/Queue/Failing.antt =====
-- packages/runtime/src/queue.ts: what becomes of a job that fails, and how long it waits.
use native.Mathlib.Nat.{pow-suc}
use qev_platform.Base.{
  ℕ, zero, suc, eqb, ◌+◌, ◌*◌, ◌-◌, ◌^◌, ◌≤◌, ◌<◌, String, ◌≡◌, ◌≢◌, refl, Bool, true, false, none,
  some, [], ◌∷◌, arith, inl, inr, ◌==◌, eq_iff, eq_refl, Bool-cases, ◌&&◌, leb,
}
use qev_platform.Runtime.Queue.{DurableQueue, delay_sec, fail_writes, fail, buried, postponed}
use qev_platform.Runtime.Queue.Files.{
  QueueJob, Folder, in_pending, in_processing, in_done, in_dead, Disk, put, remove, file, file_name,
  run_writes, file-move,
}

pow_mono : (a b : ℕ) → a ≤ b → 2 ^ a ≤ 2 ^ b
pow_mono zero zero h = omega arith
pow_mono zero (suc b) h = omega (arith, pow_mono zero b, pow-suc 2 b)
pow_mono (suc a) zero h = absurd (omega arith)
pow_mono (suc a) (suc b) h = omega (arith, pow_mono a b, pow-suc 2 a, pow-suc 2 b)

-- The wait grows with the attempts, is nothing after the first of them, and never passes 300 seconds.
pub delay_sec_bounds :
    (a b : ℕ)
    → a ≤ b
    → (delay_sec a ≤ delay_sec b)
      × (delay_sec b ≤ 300)
      × (delay_sec 1 ≡ 0)
      × (9 < b → delay_sec b ≡ 300)
unfolding delay_sec
delay_sec_bounds a b h = (
  omega (arith, pow_mono (a - 1) (b - 1)),
  omega arith,
  refl,
  λ late. omega (arith, pow_mono 9 (b - 1)),
)

module _ (iso : ℕ → String) (cut : String → String) where
  module _ (id : String) (now : ℕ) (error : String) (q : DurableQueue) (job : QueueJob)
      (e : file in_processing (file_name id) q.disk ≡ some job) where
    fail-over :
        leb job.max_attempts job.attempts ≡ true
        → (fail iso cut id now error q).disk
          ≡ run_writes
              (put in_dead (file_name id) (buried iso cut now error job)
                ∷ remove in_processing (file_name id)
                ∷ [])
              q.disk
    unfolding fail
    fail-over over = rw (e, over, fail, fail_writes)

    fail-left :
        leb job.max_attempts job.attempts ≡ false
        → (fail iso cut id now error q).disk
          ≡ run_writes
              (put in_pending (file_name id) (postponed iso cut now error job)
                ∷ remove in_processing (file_name id)
                ∷ [])
              q.disk
    unfolding fail
    fail-left left = rw (e, left, fail, fail_writes)

  other_name : (b : Bool) (n m : String) → m ≢ n → (b && n == m) ≡ false
  other_name b n m ne = ground (arith, eq_iff n m)

  fail-none :
      (id : String) (now : ℕ) (error : String) (q : DurableQueue)
      → file in_processing (file_name id) q.disk ≡ none
      → fail iso cut id now error q ≡ q
  unfolding fail run_writes
  fail-none id now error q e = rw (e, fail, fail_writes) refl

  -- A job that was claimed once may be tried again at once, one claimed more often waits.
  postponed-until :
      (now : ℕ) (error : String) (job : QueueJob)
      → (job.attempts ≤ 1 → (postponed iso cut now error job).next_attempt_at ≡ none)
        × (1 < job.attempts
            → (postponed iso cut now error job).next_attempt_at
              ≡ some (iso (now + delay_sec job.attempts * 1000)))
  unfolding delay_sec
  postponed-until now error job = (
    (λ few.
        let waits : eqb (delay_sec job.attempts) 0 ≡ true =
          ground (arith, few, pow_mono (job.attempts - 1) 0) in
        rw waits refl),
    (λ more.
        let waits : eqb (delay_sec job.attempts) 0 ≡ false =
          ground (arith, more, pow_mono 1 (job.attempts - 1)) in
        rw waits refl),
  )

  -- What the directories hold under the name of a job that failed, and under other names.
  pub record IsFailed (id : String) (now : ℕ) (error : String) (job : QueueJob) (d after : Disk)
      : Type 0 where
    pub left_processing : file in_processing (file_name id) after ≡ none
    pub used_up :
        job.max_attempts ≤ job.attempts
        → (file in_dead (file_name id) after ≡ some (buried iso cut now error job))
          × (file in_pending (file_name id) after ≡ file in_pending (file_name id) d)
    pub tried_again :
        job.attempts < job.max_attempts
        → (file in_pending (file_name id) after ≡ some (postponed iso cut now error job))
          × (file in_dead (file_name id) after ≡ file in_dead (file_name id) d)
    pub waits :
        (job.attempts ≤ 1 → (postponed iso cut now error job).next_attempt_at ≡ none)
        × (1 < job.attempts
            → (postponed iso cut now error job).next_attempt_at
              ≡ some (iso (now + delay_sec job.attempts * 1000)))
    pub not_done : file in_done (file_name id) after ≡ file in_done (file_name id) d
    pub others : (f : Folder) (m : String) → m ≢ file_name id → file f m after ≡ file f m d

  -- Where no job of the identifier is in processing, failing it changes nothing. A job that is there
  -- leaves processing. At its limit of attempts it is put into the dead letters, with the error and
  -- the date, and not into pending; below the limit it is put into pending, and not into the
  -- dead letters, with the date of its next attempt, or with none if it was claimed only once.
  -- Done and every file of another name stay.
  pub fail_lem :
      (id : String) (now : ℕ) (error : String) (q : DurableQueue)
      → (file in_processing (file_name id) q.disk ≡ none → fail iso cut id now error q ≡ q)
        × ((job : QueueJob)
            → file in_processing (file_name id) q.disk ≡ some job
            → IsFailed id now error job q.disk (fail iso cut id now error q).disk)
  fail_lem id now error q = (
    fail-none id now error q,
    λ job e. elim (Bool-cases (leb job.max_attempts job.attempts)) [
      | inl over ↦ rw (fail-over id now error q job e over) (record {
        left_processing = simp (file-move, eq_refl);
        used_up = λ _. (simp (file-move, eq_refl), simp file-move);
        tried_again = λ less. absurd (ground (arith, over));
        waits = postponed-until now error job;
        not_done = simp file-move;
        others = λ f m ne. simp (file-move, other_name _ _ _ ne);
      })
      | inr left ↦ rw (fail-left id now error q job e left) (record {
        left_processing = simp (file-move, eq_refl);
        used_up = λ more. absurd (ground (arith, left));
        tried_again = λ _. (simp (file-move, eq_refl), simp file-move);
        waits = postponed-until now error job;
        not_done = simp file-move;
        others = λ f m ne. simp (file-move, other_name _ _ _ ne);
      })
    ],
  )
