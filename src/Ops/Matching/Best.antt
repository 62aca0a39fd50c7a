-- ===== src/Ops/Matching/Best.antt =====
-- packages/ops/src/matching.ts: what the case that is named has over the other candidates.
use mathlib.Core.Path.{subst}
use mathlib.Core.List.{Mem, mem-cons_self, mem-cons_of_mem}
use qev_platform.Base.{
  ◌<◌, ◌≤◌, String, ◌≡◌, ◌⊎◌, inl, inr, refl, sym, ◌∙◌, Bool, true, false, not, ◌&&◌, Option, none,
  some, List, [], ◌∷◌, Bool-cases, All, All-map, All-of-sort_by, All-insert, lookup-All, Assoc,
  IsSorted, arith,
}
use qev_platform.Ops.Matching.{
  MatchConfidence, exact, high, MatchCandidate, MatchInput, ties, is_open, is_exact, is_uncertain,
  decide_match, match_case, match_candidates, best_by_id, values, keep_higher, ranked_candidates,
  higher,
}
use qev_platform.Ops.Matching.Ranked.{
  lookup-values, ranked-IsSorted, Covers, best_by_id-Covers, keep_higher-cases, All-ranked,
  All-candidates, All-hinted,
}

-- No candidate has a higher score than `best`, and those with the same score name the same case.
abbrev pub IsBelow : (best c : MatchCandidate) → Type 0
IsBelow best c = (c.score ≤ best.score) × (c.score ≡ best.score → c.case_id ≡ best.case_id)

untied :
    (best : MatchCandidate) (rest : List MatchCandidate)
    → IsSorted higher (best ∷ rest)
    → ties best rest ≡ false
    → All (λ d. d.score < best.score) rest
untied best [] s t = tt
untied best (next ∷ rest) s t =
    let first : next.score < best.score = ground (arith, s.0.0, t) in
    (first, All-map (λ d h. ground (arith, h, first)) rest s.1.0)

decide_match-named :
    (known : List String) (cs : List MatchCandidate) (id : String)
    → (decide_match known cs).case_id ≡ some id
    → (best : MatchCandidate) × (rest : List MatchCandidate) × (cs ≡ best ∷ rest)
      × (ties best rest ≡ false)
      × (best.case_id ≡ id)
unfolding decide_match
decide_match-named known [] id h = cc
decide_match-named known (best ∷ rest) id h = elim (Bool-cases (ties best rest)) [
  | inl t ↦ let clash : ◌≡◌ {A = Option String} none (some id) = rw t at h in cc
  | inr t ↦ elim (Bool-cases (not (is_open known best.case_id) && not (is_exact best.confidence))) [
    | inl c ↦ let named : some best.case_id ≡ some id = rw (t, c) at h in (best, rest, refl, t, cc)
    | inr c ↦ let named : some best.case_id ≡ some id = rw (t, c) at h in (best, rest, refl, t, cc)
  ]
]

values-IsBelow :
    (input : MatchInput) (best : MatchCandidate) (rest : List MatchCandidate)
    → ranked_candidates input ≡ best ∷ rest
    → ties best rest ≡ false
    → All
        (λ d. (d.score < best.score) ⊎ (d ≡ best))
        (values (best_by_id (match_candidates input) []))
unfolding ranked_candidates
values-IsBelow input best rest e t =
    let sorted : IsSorted higher (best ∷ rest) =
      subst (IsSorted higher) e (ranked-IsSorted input) in
    let lower = untied best rest sorted t in
    All-of-sort_by higher (λ d. (d.score < best.score) ⊎ (d ≡ best))
      (values (best_by_id (match_candidates input) []))
      (subst (All (λ d. (d.score < best.score) ⊎ (d ≡ best))) (sym e)
        (inr refl, All-map (λ d h. inl h) rest lower))

keep_higher-keyed :
    (c : MatchCandidate) (m : Assoc MatchCandidate)
    → All (λ e. e.1.case_id ≡ e.0) m
    → All (λ e. e.1.case_id ≡ e.0) (keep_higher c m)
keep_higher-keyed c m h = elim (keep_higher-cases c m) [
  | inl (e, _) ↦ rw e (All-insert (λ e. e.1.case_id ≡ e.0) c.case_id c m refl h)
  | inr (e, _) ↦ rw e h
]

best_by_id-keyed :
    (cs : List MatchCandidate) (m : Assoc MatchCandidate)
    → All (λ e. e.1.case_id ≡ e.0) m
    → All (λ e. e.1.case_id ≡ e.0) (best_by_id cs m)
unfolding best_by_id
best_by_id-keyed [] m h = h
best_by_id-keyed (c ∷ cs) m h = best_by_id-keyed cs (keep_higher c m) (keep_higher-keyed c m h)

All-Mem_of :
    (all xs : List MatchCandidate)
    → ((c : MatchCandidate) → Mem c xs → Mem c all)
    → All (λ c. Mem c all) xs
All-Mem_of all [] h = tt
All-Mem_of all (x ∷ xs) h =
    (h x (mem-cons_self), All-Mem_of all xs (λ c k. h c (mem-cons_of_mem x k)))

below :
    (input : MatchInput) (best : MatchCandidate) (rest : List MatchCandidate)
    → ranked_candidates input ≡ best ∷ rest
    → ties best rest ≡ false
    → (c : MatchCandidate) → Covers (best_by_id (match_candidates input) []) c
    → IsBelow best c
below input best rest e t c (d, at, le) =
    let m = best_by_id (match_candidates input) [] in
    let keyed : d.case_id ≡ c.case_id =
      lookup-All (λ e. e.1.case_id ≡ e.0) c.case_id m at
        (best_by_id-keyed (match_candidates input) [] tt) in
    elim (lookup-values (λ d. (d.score < best.score) ⊎ (d ≡ best)) c.case_id m at
      (values-IsBelow input best rest e t)) [
        | inl lower ↦ (omega (arith, le, lower), λ same. absurd (omega (arith, le, lower, same)))
        | inr eq ↦ (rw (← eq) le, λ same. rw (← eq) (sym keyed))
      ]

decide_match-candidates :
    (known : List String) (cs : List MatchCandidate) → (decide_match known cs).candidates ≡ cs
unfolding decide_match
decide_match-candidates known [] = refl
decide_match-candidates known (best ∷ rest) = elim (Bool-cases (ties best rest)) [
  | inl t ↦ rw t refl
  | inr t ↦ elim (Bool-cases (not (is_open known best.case_id) && not (is_exact best.confidence))) [
    | inl c ↦ rw (t, c) refl
    | inr c ↦ rw (t, c) refl
  ]
]

-- When a case is named, it is that of the first candidate of the result, which is one that the input
-- gives; and every candidate that the input gives has a lower score, or the same score and the same
-- case.
pub match_case-best :
    (input : MatchInput) (id : String)
    → (match_case input).case_id ≡ some id
    → (best : MatchCandidate) × (rest : List MatchCandidate) × ((match_case input).candidates
        ≡ best ∷ rest)
      × (best.case_id ≡ id)
      × Mem best (match_candidates input)
      × All (IsBelow best) (match_candidates input)
unfolding match_case
match_case-best input id h =
    let ranked = ranked_candidates input in
    let (best, rest, e, t, same) = decide_match-named input.known_case_ids ranked id h in
    let given : All (λ c. Mem c (match_candidates input)) (best ∷ rest) =
      subst (All (λ c. Mem c (match_candidates input))) e (
        All-ranked (λ c. Mem c (match_candidates input)) input
          (All-Mem_of (match_candidates input) (match_candidates input) (λ c k. k))) in
    (
      best,
      rest,
      decide_match-candidates input.known_case_ids ranked ∙ e,
      same,
      given.0,
      All-map (below input best rest e t) (match_candidates input)
          (best_by_id-Covers (match_candidates input) []),
    )

abbrev pub is_sure : MatchConfidence → Bool
is_sure exact = true
is_sure high = true
is_sure _ = false

abbrev IsGiven : MatchCandidate → Type 0
IsGiven c = is_uncertain c.confidence ≡ not (is_sure c.confidence)

decide_match-review :
    (known : List String) (cs : List MatchCandidate)
    → All IsGiven cs
    → (decide_match known cs).needs_manual_review ≡ not (is_sure (decide_match known cs).confidence)
unfolding decide_match
decide_match-review known [] g = refl
decide_match-review known (best ∷ rest) g = elim (Bool-cases (ties best rest)) [
  | inl t ↦ rw t refl
  | inr t ↦ elim (Bool-cases (not (is_open known best.case_id) && not (is_exact best.confidence))) [
    | inl c ↦ rw (t, c) refl
    | inr c ↦ rw (t, c) g.0
  ]
]

-- A manual review is called for exactly if the confidence is neither exact nor high.
pub match_case-review :
    (input : MatchInput)
    → (match_case input).needs_manual_review ≡ not (is_sure (match_case input).confidence)
unfolding match_case
match_case-review input =
    let hinted =
      All-hinted IsGiven input (λ _. refl) (λ _. refl) (λ _. refl) (λ _. refl) (λ _. refl) in
    decide_match-review input.known_case_ids (ranked_candidates input)
      (All-ranked IsGiven input (All-candidates IsGiven input (λ _. refl) hinted))
