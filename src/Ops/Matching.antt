-- ===== src/Ops/Matching.antt =====
-- packages/ops/src/matching.ts: which case a document or a message belongs to.
pub mod Tags
pub mod Ranked
pub mod Best
pub mod Explicit
use qev_platform.Base.{
  ℕ, String, ◌==◌, Bool, true, false, not, ◌&&◌, Option, none, some, List, [], ◌∷◌, ◌++◌, ◌<>◌, ltb,
  eqb, if◌then◌else◌, or_else, truthy, contains, Assoc, lookup, insert, sort_by,
}
use Tags.{subject_tag, job_tag}

pub data MatchConfidence : Type 0 where
  exact high uncertain unmatched conflicting : MatchConfidence

pub record MatchCandidate : Type 0 where
  pub case_id : String
  pub confidence : MatchConfidence
  pub reason : String
  pub score : ℕ

pub record MatchInput : Type 0 where
  pub explicit_case_id : Option String
  pub provider_object_id : Option String
  pub invoice_ref : Option String
  pub email_subject : Option String
  pub folder_path : Option String
  pub artifact_name : Option String
  pub known_case_ids : List String
  pub provider_index : Option (Assoc String)

pub record MatchResult : Type 0 where
  pub confidence : MatchConfidence
  pub case_id : Option String
  pub candidates : List MatchCandidate
  pub needs_manual_review : Bool
  pub detail : String

abbrev pub candidate : MatchConfidence → (reason : String) → ℕ → (case_id : String) → MatchCandidate
candidate confidence reason score case_id = record {
  case_id = case_id;
  confidence = confidence;
  reason = reason;
  score = score;
}

-- A candidate for a text that is there and not empty.
abbrev pub found : Option String → (String → MatchCandidate) → List MatchCandidate
found none make = []
found (some id) make = if truthy id then make id ∷ [] else []

-- A candidate for the tag in a text, if the text is there and not empty and has one.
abbrev pub tagged :
    Option String → (String → Option String) → (String → MatchCandidate) → List MatchCandidate
tagged none tag make = []
tagged (some text) tag make = if truthy text then found (tag text) make else []

abbrev indexed : Option (Assoc String) → Option String → Option String
indexed index none = none
indexed index (some id) = if truthy id then lookup id (or_else index []) else none

abbrev pub explicit_candidate : String → MatchCandidate
explicit_candidate = candidate exact "Explicit QEV case / job ID" 100

unfoldable pub hinted_candidates : MatchInput → List MatchCandidate
unfolding lookup subject_tag job_tag
hinted_candidates input =
    found (indexed input.provider_index input.provider_object_id)
      (candidate exact "Provider object ID index" 95)
    ++ (tagged input.email_subject subject_tag (candidate high "Email subject job tag" 80)
        ++ (tagged input.folder_path job_tag (candidate high "Folder path segment" 75)
            ++ (tagged input.invoice_ref job_tag (candidate high "Invoice reference" 70)
                ++ tagged input.artifact_name job_tag
                    (candidate uncertain "Artifact filename hint" 40))))

unfoldable pub match_candidates : MatchInput → List MatchCandidate
unfolding hinted_candidates
match_candidates input = found input.explicit_case_id explicit_candidate ++ hinted_candidates input

-- The step of the loop that keeps the highest score of each case.
unfoldable pub keep_higher : MatchCandidate → Assoc MatchCandidate → Assoc MatchCandidate
unfolding lookup insert
keep_higher c by_id = elim (lookup c.case_id by_id) [
  | none ↦ insert c.case_id c by_id
  | some prev ↦ if ltb prev.score c.score then insert c.case_id c by_id else by_id
]

unfoldable pub best_by_id : List MatchCandidate → Assoc MatchCandidate → Assoc MatchCandidate
unfolding keep_higher
best_by_id [] by_id = by_id
best_by_id (c ∷ cs) by_id = best_by_id cs (keep_higher c by_id)

pub values : Assoc MatchCandidate → List MatchCandidate
values [] = []
values ((k, c) ∷ m) = c ∷ values m

abbrev pub higher : MatchCandidate → MatchCandidate → Bool
higher a b = ltb b.score a.score

unfoldable pub ranked_candidates : MatchInput → List MatchCandidate
unfolding match_candidates best_by_id values sort_by
ranked_candidates input = sort_by higher (values (best_by_id (match_candidates input) []))

abbrev pub ties : MatchCandidate → List MatchCandidate → Bool
ties best [] = false
ties best (next ∷ rest) = eqb best.score next.score

abbrev pub is_exact : MatchConfidence → Bool
is_exact exact = true
is_exact _ = false

abbrev pub is_uncertain : MatchConfidence → Bool
is_uncertain uncertain = true
is_uncertain _ = false

abbrev pub is_open : List String → String → Bool
is_open [] id = true
is_open (k ∷ known) id = contains (k ∷ known) id

unfoldable pub decide_match : (known_case_ids : List String) → List MatchCandidate → MatchResult
decide_match known [] = record {
  confidence = unmatched;
  case_id = none;
  candidates = [];
  needs_manual_review = true;
  detail = "No case match — route to manual review queue";
}
decide_match known (best ∷ rest) =
    if ties best rest
    then record {
      confidence = conflicting;
      case_id = none;
      candidates = best ∷ rest;
      needs_manual_review = true;
      detail = "Multiple cases matched with equal confidence";
    }
    else if not (is_open known best.case_id) && not (is_exact best.confidence)
    then record {
      confidence = uncertain;
      case_id = some best.case_id;
      candidates = best ∷ rest;
      needs_manual_review = true;
      detail = "Best match " <> best.case_id <> " is not yet an open case";
    }
    else record {
      confidence = best.confidence;
      case_id = some best.case_id;
      candidates = best ∷ rest;
      needs_manual_review = is_uncertain best.confidence;
      detail = best.reason;
    }

unfoldable pub match_case : MatchInput → MatchResult
unfolding decide_match ranked_candidates
match_case input = decide_match input.known_case_ids (ranked_candidates input)
