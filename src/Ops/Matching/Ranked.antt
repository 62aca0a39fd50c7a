-- ===== src/Ops/Matching/Ranked.antt =====
-- packages/ops/src/matching.ts: the ranked candidates against those that the input gives.
use qev_platform.Base.{
  ◌<◌, ◌≤◌, String, ◌==◌, eq_iff, eq_refl, ◌≡◌, ◌⊎◌, inl, inr, refl, sym, ◌∙◌, Option, none, some,
  List, [], ◌∷◌, ltb, ltb→lt, truthy, Bool-cases, Assoc, lookup, insert, lookup-insert, All,
  All-append, All-insert, All-sort_by, IsSorted, sort_by-IsSorted, arith,
}
use qev_platform.Ops.Matching.{
  MatchCandidate, MatchInput, found, tagged, candidate, explicit_candidate, hinted_candidates,
  match_candidates, keep_higher, best_by_id, values, higher, ranked_candidates, exact, high,
  uncertain, indexed,
}
use qev_platform.Ops.Matching.Tags.{subject_tag, job_tag}

-- The map holds the case of `c` with at least its score.
abbrev pub Covers : Assoc MatchCandidate → MatchCandidate → Type 0
Covers m c = (d : MatchCandidate) × (lookup c.case_id m ≡ some d) × (c.score ≤ d.score)

keep_higher_by :
    (c : MatchCandidate) (m : Assoc MatchCandidate) (o : Option MatchCandidate)
    → lookup c.case_id m ≡ o
    → ((keep_higher c m ≡ insert c.case_id c m)
        × ((d : MatchCandidate) → lookup c.case_id m ≡ some d → d.score < c.score))
      ⊎ ((keep_higher c m ≡ m) × Covers m c)
unfolding keep_higher
keep_higher_by c m none e =
    inl (rw (e, keep_higher) refl, λ d h. let clash : none ≡ some d = sym e ∙ h in cc)
keep_higher_by c m (some prev) e = elim (Bool-cases (ltb prev.score c.score)) [
  | inl up ↦ inl (
    rw (e, up, keep_higher) refl,
    λ d h.
        let one : some prev ≡ some d = sym e ∙ h in
        let eq : prev ≡ d = cc in rw (← eq) (ltb→lt prev.score c.score up),
  )
  | inr down ↦ inr (rw (e, down, keep_higher) refl, (prev, e, ground (arith, down)))
]

-- A candidate is put in, above what its case had, or its case has as much already.
pub keep_higher-cases :
    (c : MatchCandidate) (m : Assoc MatchCandidate)
    → ((keep_higher c m ≡ insert c.case_id c m)
        × ((d : MatchCandidate) → lookup c.case_id m ≡ some d → d.score < c.score))
      ⊎ ((keep_higher c m ≡ m) × Covers m c)
keep_higher-cases c m = keep_higher_by c m (lookup c.case_id m) refl

module _ {κ} (P : MatchCandidate → Type κ) where
  All-found :
      (o : Option String) (make : String → MatchCandidate)
      → ((id : String) → P (make id))
      → All P (found o make)
  All-found none make p = tt
  All-found (some id) make p = elim (Bool-cases (truthy id)) [
    | inl e ↦ rw e (p id, tt)
    | inr e ↦ rw e tt
  ]

  All-tagged :
      (o : Option String) (tag : String → Option String) (make : String → MatchCandidate)
      → ((id : String) → P (make id))
      → All P (tagged o tag make)
  All-tagged none tag make p = tt
  All-tagged (some text) tag make p = elim (Bool-cases (truthy text)) [
    | inl e ↦ rw e (All-found (tag text) make p)
    | inr e ↦ rw e tt
  ]

  pub All-hinted :
      (input : MatchInput)
      → ((id : String) → P (candidate exact "Provider object ID index" 95 id))
      → ((id : String) → P (candidate high "Email subject job tag" 80 id))
      → ((id : String) → P (candidate high "Folder path segment" 75 id))
      → ((id : String) → P (candidate high "Invoice reference" 70 id))
      → ((id : String) → P (candidate uncertain "Artifact filename hint" 40 id))
      → All P (hinted_candidates input)
  unfolding hinted_candidates
  All-hinted input index subject folder invoice artifact =
      All-append P _ _
        (All-found (indexed input.provider_index input.provider_object_id)
          (candidate exact "Provider object ID index" 95) index)
        (All-append P _ _ (All-tagged input.email_subject subject_tag _ subject) (
          All-append P _ _ (All-tagged input.folder_path job_tag _ folder) (
            All-append P _ _ (All-tagged input.invoice_ref job_tag _ invoice)
              (All-tagged input.artifact_name job_tag _ artifact))))

  pub All-candidates :
      (input : MatchInput)
      → ((id : String) → P (explicit_candidate id))
      → All P (hinted_candidates input)
      → All P (match_candidates input)
  unfolding match_candidates
  All-candidates input explicit hinted =
      All-append P _ _ (All-found input.explicit_case_id explicit_candidate explicit) hinted

  pub All-keep_higher :
      (c : MatchCandidate) (m : Assoc MatchCandidate)
      → P c
      → All (λ e. P e.1) m
      → All (λ e. P e.1) (keep_higher c m)
  All-keep_higher c m p h = elim (keep_higher-cases c m) [
    | inl (e, _) ↦ rw e (All-insert (λ e. P e.1) c.case_id c m p h)
    | inr (e, _) ↦ rw e h
  ]

  pub All-best_by_id :
      (cs : List MatchCandidate) (m : Assoc MatchCandidate)
      → All P cs
      → All (λ e. P e.1) m
      → All (λ e. P e.1) (best_by_id cs m)
  unfolding best_by_id
  All-best_by_id [] m p h = h
  All-best_by_id (c ∷ cs) m p h =
      All-best_by_id cs (keep_higher c m) p.1 (All-keep_higher c m p.0 h)

  pub All-values : (m : Assoc MatchCandidate) → All (λ e. P e.1) m → All P (values m)
  unfolding values
  All-values [] h = tt
  All-values ((k, c) ∷ m) h = (h.0, All-values m h.1)

  pub All-ranked :
      (input : MatchInput) → All P (match_candidates input) → All P (ranked_candidates input)
  unfolding ranked_candidates
  All-ranked input p =
      All-sort_by higher P _ (All-values _ (All-best_by_id (match_candidates input) [] p tt))

  pub lookup-values :
      (k : String) {c : MatchCandidate} (m : Assoc MatchCandidate)
      → lookup k m ≡ some c
      → All P (values m)
      → P c
  unfolding lookup values
  lookup-values k [] e h = cc
  lookup-values k {c} ((j, d) ∷ m) e h = elim (Bool-cases (j == k)) [
    | inl here ↦ let same : some d ≡ some c = rw here at e in let eq : d ≡ c = cc in rw (← eq) h.0
    | inr off ↦ let rest : lookup k m ≡ some c = rw off at e in lookup-values k m rest h.1
  ]

pub ranked-IsSorted : (input : MatchInput) → IsSorted higher (ranked_candidates input)
unfolding ranked_candidates
ranked-IsSorted input =
    sort_by-IsSorted higher (λ x y h. ground (arith, h)) (λ x y z h k. ground (arith, h, k))
      (values (best_by_id (match_candidates input) []))

keep_higher-Covers : (c : MatchCandidate) (m : Assoc MatchCandidate) → Covers (keep_higher c m) c
keep_higher-Covers c m = elim (keep_higher-cases c m) [
  | inl (e, _) ↦
      (c, rw (e, lookup-insert c.case_id c.case_id c m, eq_refl c.case_id) refl, omega arith)
  | inr (e, h) ↦ rw e h
]

keep_higher-keeps :
    (c x : MatchCandidate) (m : Assoc MatchCandidate) → Covers m x → Covers (keep_higher c m) x
keep_higher-keeps c x m (d, at, le) = elim (keep_higher-cases c m) [
  | inr (e, _) ↦ rw e (d, at, le)
  | inl (e, above) ↦ elim (Bool-cases (c.case_id == x.case_id)) [
    | inl same ↦
        let ids = (eq_iff c.case_id x.case_id).0 same in
        let lower : d.score < c.score = above d (rw ids at) in
        (c, rw (e, lookup-insert c.case_id x.case_id c m, same) refl, omega (arith, lower, le))
    | inr off ↦ (d, rw (e, lookup-insert c.case_id x.case_id c m, off) at, le)
  ]
]

best_by_id-keeps :
    (cs : List MatchCandidate) (x : MatchCandidate) (m : Assoc MatchCandidate)
    → Covers m x
    → Covers (best_by_id cs m) x
unfolding best_by_id
best_by_id-keeps [] x m h = h
best_by_id-keeps (c ∷ cs) x m h =
    best_by_id-keeps cs x (keep_higher c m) (keep_higher-keeps c x m h)

pub best_by_id-Covers :
    (cs : List MatchCandidate) (m : Assoc MatchCandidate) → All (Covers (best_by_id cs m)) cs
unfolding best_by_id
best_by_id-Covers [] m = tt
best_by_id-Covers (c ∷ cs) m = (
  best_by_id-keeps cs c (keep_higher c m) (keep_higher-Covers c m),
  best_by_id-Covers cs (keep_higher c m),
)
