-- ===== src/Runtime/Queue/Order.antt =====
-- packages/runtime/src/queue.ts: which job is claimed next.
use mathlib.Core.Path.{subst}
use mathlib.Core.List.{Mem, mem-cons_self, mem-cons_of_mem}
use qev_platform.Base.{
  String, ◌≡◌, refl, true, false, Option, none, some, List, [], ◌∷◌, arith, inl, inr, Assoc, All,
  All-map, All-sort_by, All-of-sort_by, sort_by, IsSorted, sort_by-IsSorted, Bool-cases,
  Option-cases, text_lt, text_lt_asym, text_lt_negtrans, text_lt_irrefl,
}
use qev_platform.Runtime.Queue.{
  DurableQueue, ensure_ready, is_due, first_due, name_lt, next_file, claim_ready, claimed,
  claim_next,
}
use qev_platform.Runtime.Queue.Files.{QueueJob, Disk}

module _ (now : String) where
  first_due-none :
      (es : Assoc QueueJob) → first_due now es ≡ none → All (λ e. is_due now e.1 ≡ false) es
  first_due-none [] h = tt
  first_due-none ((n, j) ∷ es) h = elim (Bool-cases (is_due now j)) [
    | inl e ↦ let other : ◌≡◌ {A = Option (String × QueueJob)} (some (n, j)) none = rw e at h in cc
    | inr e ↦ let rest : first_due now es ≡ none = rw e at h in (e, first_due-none es rest)
  ]

  pub first_due-All :
      (P : String × QueueJob → Type 0) (es : Assoc QueueJob) (e : String × QueueJob)
      → first_due now es ≡ some e
      → All P es
      → P e × (is_due now e.1 ≡ true)
  first_due-All P [] e h p = cc
  first_due-All P ((n, j) ∷ es) e h p = elim (Bool-cases (is_due now j)) [
    | inl due ↦
        let found : some (n, j) ≡ some e = rw due at h in
        let same : (n, j) ≡ e = cc in rw (← same) (p.0, due)
    | inr off ↦ let rest : first_due now es ≡ some e = rw off at h in first_due-All P es e rest p.1
  ]

  -- In a sorted list nothing that is due stands before the entry that is found.
  first_due-least :
      (es : Assoc QueueJob) (e : String × QueueJob)
      → first_due now es ≡ some e
      → IsSorted name_lt es
      → All (λ a. is_due now a.1 ≡ true → name_lt a e ≡ false) es
  first_due-least [] e h s = cc
  first_due-least ((n, j) ∷ es) e h s = elim (Bool-cases (is_due now j)) [
    | inl due ↦
        let found : some (n, j) ≡ some e = rw due at h in
        let same : (n, j) ≡ e = cc in
        (
          (λ _. subst (λ z. name_lt (n, j) z ≡ false) same (text_lt_irrefl n)),
          All-map (λ a k _. subst (λ z. name_lt a z ≡ false) same k) es s.0,
        )
    | inr off ↦
        let rest : first_due now es ≡ some e = rw off at h in
        ((λ due. ground arith), first_due-least es e rest s.1)
  ]

name-IsSorted : (es : Assoc QueueJob) → IsSorted name_lt (sort_by name_lt es)
name-IsSorted es =
    sort_by-IsSorted name_lt (λ a b h. text_lt_asym a.0 b.0 h)
      (λ a b c h k. text_lt_negtrans a.0 b.0 c.0 h k) es

All-mem {ℓ} : {A : Type ℓ} (xs : List A) → All (λ a. Mem a xs) xs
All-mem [] = tt
All-mem (x ∷ xs) = (mem-cons_self, All-map (λ a m. mem-cons_of_mem x m) xs (All-mem xs))

-- What a claim returns: with no job, nothing pending is due; else the job of a pending file that is
-- due, and no due file has a smaller name.
abbrev pub ClaimsFirst : String → Assoc QueueJob → Option QueueJob → Type 0
ClaimsFirst now es none = All (λ a. is_due now a.1 ≡ false) es
ClaimsFirst now es (some job) =
    (e : String × QueueJob) × (job ≡ claimed now e.1)
    × Mem e es
    × (is_due now e.1 ≡ true)
    × All (λ a. is_due now a.1 ≡ true → text_lt a.0 e.0 ≡ false) es

next_file-first :
    (now : String) (d : Disk) (e : String × QueueJob)
    → next_file now d ≡ some e
    → ClaimsFirst now d.pending_dir (some (claimed now e.1))
unfolding next_file
next_file-first now d e h =
    let sorted = sort_by name_lt d.pending_dir in
    let found =
      first_due-All now (λ a. Mem a d.pending_dir) sorted e h
        (All-sort_by name_lt (λ a. Mem a d.pending_dir) d.pending_dir (All-mem d.pending_dir)) in
    let least =
      All-of-sort_by name_lt (λ a. is_due now a.1 ≡ true → text_lt a.0 e.0 ≡ false) d.pending_dir
        (first_due-least now sorted e h (name-IsSorted d.pending_dir)) in
    (e, refl, found.0, found.1, least)

next_file-none :
    (now : String) (d : Disk)
    → next_file now d ≡ none
    → All (λ a. is_due now a.1 ≡ false) d.pending_dir
unfolding next_file
next_file-none now d h =
    All-of-sort_by name_lt (λ a. is_due now a.1 ≡ false) d.pending_dir
      (first_due-none now (sort_by name_lt d.pending_dir) h)

-- A claim takes the due pending job whose file name is first in the order of sort(), and it
-- returns null exactly if no pending job is due.
pub claim_next-first :
    (now : String) (q : DurableQueue)
    → ClaimsFirst now (ensure_ready q).disk.pending_dir (claim_next now q).1
unfolding claim_next claim_ready
claim_next-first now q = elim (Option-cases (next_file now (ensure_ready q).disk)) [
  | inl e ↦ rw (e, claim_ready) (next_file-none now (ensure_ready q).disk e)
  | inr (found, e) ↦ rw (e, claim_ready) (next_file-first now (ensure_ready q).disk found e)
]
