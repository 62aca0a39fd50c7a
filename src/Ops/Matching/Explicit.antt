-- ===== src/Ops/Matching/Explicit.antt =====
-- packages/ops/src/matching.ts: a case that the input names itself.
use qev_platform.Base.{
  ◌<◌, String, ◌==◌, ◌≡◌, inl, inr, refl, ap, ◌∙◌, true, false, Option, none, some, List, [], ◌∷◌,
  ltb, truthy, Bool-cases, All, All-sort_by, put_sorted, sort_by, Assoc, lookup, insert, arith,
}
use qev_platform.Ops.Matching.{
  exact, MatchCandidate, MatchInput, ties, is_open, decide_match, match_case, match_candidates,
  hinted_candidates, explicit_candidate, keep_higher, best_by_id, values, ranked_candidates, higher,
}
use qev_platform.Ops.Matching.Ranked.{All-values, All-keep_higher, All-hinted}

abbrev Lower : MatchCandidate → Type 0
Lower c = c.score < 100

-- A map whose first entry is the explicit candidate, and whose others have lower scores.
abbrev Leads : String → Assoc MatchCandidate → Type 0
Leads id m =
    (rest : Assoc MatchCandidate) × (m ≡ (id, explicit_candidate id) ∷ rest)
    × All (λ e. Lower e.1) rest

keep_higher-here :
    (id : String) (c : MatchCandidate) (rest : Assoc MatchCandidate)
    → (id == c.case_id) ≡ true
    → Lower c
    → keep_higher c ((id, explicit_candidate id) ∷ rest) ≡ (id, explicit_candidate id) ∷ rest
unfolding keep_higher lookup
keep_higher-here id c rest e l =
    let down : ltb 100 c.score ≡ false = ground (arith, l) in rw (keep_higher, e, down) refl

keep_higher-there_by :
    (id : String) (c d : MatchCandidate) (rest : Assoc MatchCandidate) (o : Option MatchCandidate)
    → (id == c.case_id) ≡ false
    → lookup c.case_id rest ≡ o
    → keep_higher c ((id, d) ∷ rest) ≡ (id, d) ∷ keep_higher c rest
unfolding keep_higher lookup insert
keep_higher-there_by id c d rest none e at = rw (keep_higher, e, at, insert, e) refl
keep_higher-there_by id c d rest (some prev) e at = elim (Bool-cases (ltb prev.score c.score)) [
  | inl up ↦ rw (keep_higher, e, at, up, insert, e) refl
  | inr down ↦ rw (keep_higher, e, at, down) refl
]

best_by_id-Leads :
    (id : String) (cs : List MatchCandidate) (rest : Assoc MatchCandidate)
    → All Lower cs
    → All (λ e. Lower e.1) rest
    → Leads id (best_by_id cs ((id, explicit_candidate id) ∷ rest))
unfolding best_by_id
best_by_id-Leads id [] rest l r = (rest, refl, r)
best_by_id-Leads id (c ∷ cs) rest l r = elim (Bool-cases (id == c.case_id)) [
  | inl e ↦ rw (keep_higher-here id c rest e l.0) (best_by_id-Leads id cs rest l.1 r)
  | inr e ↦
      rw (keep_higher-there_by id c (explicit_candidate id) rest (lookup c.case_id rest) e refl)
        (best_by_id-Leads id cs (keep_higher c rest) l.1 (All-keep_higher Lower c rest l.0 r))
]

put_sorted-first :
    (c : MatchCandidate) (cs : List MatchCandidate)
    → All (λ d. d.score < c.score) cs
    → put_sorted higher c cs ≡ c ∷ cs
unfolding put_sorted
put_sorted-first c [] l = refl
put_sorted-first c (d ∷ cs) l =
    let no : ltb c.score d.score ≡ false = ground (arith, l.0) in rw no refl

best-explicit :
    (input : MatchInput) (id : String)
    → input.explicit_case_id ≡ some id
    → truthy id ≡ true
    → Leads id (best_by_id (match_candidates input) [])
unfolding match_candidates best_by_id keep_higher lookup insert
best-explicit input id e t =
    let hinted =
      All-hinted Lower input (λ _. omega arith) (λ _. omega arith) (λ _. omega arith)
        (λ _. omega arith) (λ _. omega arith) in
    rw (e, t) (best_by_id-Leads id (hinted_candidates input) [] hinted tt)

ranked-explicit :
    (input : MatchInput) (id : String)
    → input.explicit_case_id ≡ some id
    → truthy id ≡ true
    → (rest : List MatchCandidate) × (ranked_candidates input ≡ explicit_candidate id ∷ rest)
      × All Lower rest
unfolding ranked_candidates sort_by values
ranked-explicit input id e t =
    let (m, leads, low) = best-explicit input id e t in
    let others = All-sort_by higher Lower (values m) (All-values Lower m low) in
    (
      sort_by higher (values m),
      ap (λ z. sort_by higher (values z)) leads
          ∙ put_sorted-first (explicit_candidate id) (sort_by higher (values m)) others,
      others,
    )

untied :
    (id : String) (rest : List MatchCandidate)
    → All Lower rest
    → ties (explicit_candidate id) rest ≡ false
untied id [] l = refl
untied id (c ∷ rest) l = ground (arith, l.0)

-- An input that names a case itself is matched to that case, exactly and with no review, whatever
-- else it holds and whichever cases are open.
pub match_case-explicit :
    (input : MatchInput) (id : String)
    → input.explicit_case_id ≡ some id
    → truthy id ≡ true
    → ((match_case input).case_id ≡ some id)
      × ((match_case input).confidence ≡ exact)
      × ((match_case input).needs_manual_review ≡ false)
unfolding match_case decide_match
match_case-explicit input id e t =
    let (rest, ranked, low) = ranked-explicit input id e t in
    rw (ranked, untied id rest low)
      (elim (Bool-cases (is_open input.known_case_ids id)) [
        | inl o ↦ rw o (refl, refl, refl)
        | inr o ↦ rw o (refl, refl, refl)
      ])
