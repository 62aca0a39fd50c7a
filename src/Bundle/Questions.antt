-- ===== src/Bundle/Questions.antt =====
-- packages/evidence-bundle/src/build.ts: which questions of a field-service bundle have an answer.
use qev_platform.Base.{String, ◌≡◌, refl, Bool, true, false, not, ◌&&◌, ◌||◌, List, all, contains}
use qev_platform.Event.{QevEvent, BundleQuestion}
use qev_platform.Flow.{field_service_pack}
use qev_platform.Ops.Completeness.{evaluate_completeness, completeness_lem}
use qev_platform.Bundle.Build.{action_names, questions_of}

abbrev pub all_answerable : List BundleQuestion → Bool
all_answerable qs = all (λ (q : BundleQuestion). q.answerable) qs

abbrev pub has : List QevEvent → String → Bool
has events a = contains (action_names events) a

and_true : (b : Bool) → (b && true) ≡ b
and_true true = refl
and_true false = refl

-- Each question of a field-service bundle has an answer exactly if the case has an approved estimate,
-- evidence from before and after, and an approval of the change if the scope was changed.
pub all_answerable_iff :
    (events : List QevEvent)
    → all_answerable (questions_of "field-service" events) ≡ (
        has events "estimate.approved"
        && (has events "evidence.before_captured"
            && ((not (has events "scope.changed") || has events "change.approved")
                && has events "evidence.after_captured")))
unfolding questions_of
all_answerable_iff events = rw (and_true (has events "evidence.after_captured")) refl

-- A field-service case that is complete for sealing has an answer to each question, unless its scope was
-- changed with no approval.
pub complete-answers :
    (events : List QevEvent) (case_id : String)
    → (evaluate_completeness events field_service_pack case_id).complete_for_seal ≡ true
    → all_answerable (questions_of "field-service" events)
      ≡ (not (has events "scope.changed") || has events "change.approved")
complete-answers events case_id h =
    let present = (completeness_lem events field_service_pack case_id).0.0 h in
    rw (all_answerable_iff events, present.1.0, present.1.1.0, present.1.1.1.1.0)
      (and_true (not (has events "scope.changed") || has events "change.approved"))
