-- ===== src/Flow.antt =====
-- packages/trust/src/flow-types.ts and field-service.ts: what a flow requires of a case.
use qev_platform.Base.{String, Bool, true, Option, some, List, [], ◌∷◌, Assoc}
use qev_platform.Event.{PrivacyMode, full}

pub data FlowMode : Type 0 where
  shadow live gate : FlowMode

pub data IncompleteOutcome : Type 0 where
  incomplete blocked : IncompleteOutcome

pub record SealPolicy : Type 0 where
  pub allow_incomplete : Bool
  pub incomplete_outcome : IncompleteOutcome

pub record PrivacyDefaults : Type 0 where
  pub default_mode : PrivacyMode
  pub field_modes : Option (Assoc String)

pub record FlowPack : Type 0 where
  pub id : String
  pub version : String
  pub title : String
  pub description : String
  pub mode : FlowMode
  pub required_actions : List String
  pub optional_actions : List String
  pub privacy_defaults : PrivacyDefaults
  pub review_questions : List String
  pub seal_policy : SealPolicy

abbrev pub field_service_pack : FlowPack
field_service_pack = record {
  id = "field-service";
  version = "0.1.0";
  title = "Field Service Job Evidence";
  description =
      "Capture job, estimate approval, before/after evidence, work completion, and optional billing for small field-service businesses.";
  mode = shadow;
  required_actions =
      "job.created" ∷ "estimate.approved" ∷ "evidence.before_captured" ∷ "work.completed"
      ∷ "evidence.after_captured" ∷ [];
  optional_actions =
      "estimate.prepared" ∷ "work.started" ∷ "scope.changed" ∷ "change.approved" ∷ "invoice.issued"
      ∷ "payment.recorded" ∷ "customer.completion_confirmed" ∷ [];
  privacy_defaults = record {
    default_mode = full;
    field_modes = some (
        ("customer_phone", "redacted")
        ∷ ("customer_email", "redacted")
        ∷ ("card_last4", "hash_only")
        ∷ ("internal_notes", "drop")
        ∷ []);
  };
  review_questions =
      "What job is this?" ∷ "Who approved the estimate?" ∷ "Were before photos captured?"
      ∷ "Was scope changed, and was the change approved?" ∷ "Were after photos captured?"
      ∷ "What evidence is missing?" ∷ "Did the package change after sealing?" ∷ [];
  seal_policy = record { allow_incomplete = true; incomplete_outcome = incomplete };
}
