-- ===== src/Ops/Modes.antt =====
-- packages/ops/src/modes.ts and model.ts: record, shadow and gate mode.
use qev_platform.Base.{
  String, ◌≡◌, ◌↔◌, ◌⊎◌, refl, Bool, true, false, not, ◌&&◌, ◌||◌, Option, none, some, List, [],
  ◌∷◌, arith, ◌==◌, eq_iff, includes, if◌then◌else◌,
}

pub data OperatingMode : Type 0 where
  record_mode shadow gate : OperatingMode

pub record ModeBehavior : Type 0 where
  pub mode : OperatingMode
  pub records_events : Bool
  pub controls_workflow : Bool
  pub can_block_actions : Bool
  pub description : String
  pub human_confirm_to_enable : Bool

abbrev pub mode_behaviors : OperatingMode → ModeBehavior
mode_behaviors record_mode = record {
  mode = record_mode;
  records_events = true;
  controls_workflow = false;
  can_block_actions = false;
  description = "Capture only when invoked; no continuous shadow of all systems.";
  human_confirm_to_enable = false;
}
mode_behaviors shadow = record {
  mode = shadow;
  records_events = true;
  controls_workflow = false;
  can_block_actions = false;
  description = "Automatic capture alongside normal ops; business process remains source of truth.";
  human_confirm_to_enable = false;
}
mode_behaviors gate = record {
  mode = gate;
  records_events = true;
  controls_workflow = true;
  can_block_actions = true;
  description =
      "Can pause/block high-risk actions lacking evidence/approval. Requires explicit opt-in.";
  human_confirm_to_enable = true;
}

abbrev pub mode_text : OperatingMode → String
mode_text record_mode = "record"
mode_text shadow = "shadow"
mode_text gate = "gate"

-- Any label but "gate" and "record" means shadow mode, the legacy "live" too.
unfoldable pub normalize_mode : Option String → OperatingMode
normalize_mode none = shadow
normalize_mode (some input) =
    if input == "live"
    then shadow
    else if input == "gate"
    then gate
    else if input == "record"
    then record_mode
    else shadow

pub record GateQuestion : Type 0 where
  pub mode : OperatingMode
  pub action : String
  pub has_change_approval : Bool
  pub completeness_ok : Bool

pub record GateAnswer : Type 0 where
  pub would_block : Bool
  pub reason : Option String

abbrev passes : GateAnswer
passes = record { would_block = false; reason = none }

abbrev is_gate : OperatingMode → Bool
is_gate gate = true
is_gate _ = false

unfoldable pub gate_would_block : GateQuestion → GateAnswer
gate_would_block q =
    if not (is_gate q.mode)
    then passes
    else if (includes q.action "scope" || includes q.action "extra_work")
        && not q.has_change_approval
    then record {
      would_block = true;
      reason = some "Gate mode: added work without change.approved";
    }
    else if q.action == "package.seal" && not q.completeness_ok
    then record { would_block = true; reason = some "Gate mode: required evidence incomplete" }
    else passes

abbrev pub requires_human_confirmation : List String
requires_human_confirmation =
    "connect_new_system_broad_permissions" ∷ "enable_gate_mode"
    ∷ "enable_irreversible_retention_lock" ∷ "grant_external_reviewer_access"
    ∷ "delete_evidence_package" ∷ "privacy_redacted_to_full_sensitive"
    ∷ "production_go_live_after_shadow" ∷ []

-- A mode survives being written as its label, and of all labels exactly "gate" gives the mode that
-- can block; only that mode wants a human confirmation.
pub normalize_mode_lem :
    (m : OperatingMode) (label : String)
    → (normalize_mode (some (mode_text m)) ≡ m)
      × (((mode_behaviors (normalize_mode (some label))).can_block_actions ≡ true)
          ↔ (label ≡ "gate"))
      × ((mode_behaviors (normalize_mode (some label))).human_confirm_to_enable
          ≡ (mode_behaviors (normalize_mode (some label))).can_block_actions)
unfolding normalize_mode
normalize_mode_lem m label = (
  round_trip m,
  (ground (arith, eq_iff label "gate", eq_iff label "live"), λ e. rw e),
  ground arith,
)
  where
    round_trip : (m : OperatingMode) → normalize_mode (some (mode_text m)) ≡ m
    round_trip record_mode = refl
    round_trip shadow = refl
    round_trip gate = refl

-- Only gate mode ever blocks, and it blocks exactly the actions on scope or extra work without an
-- approved change and the seal of an incomplete case; an answer that blocks gives a reason.
pub gate_would_block_iff :
    (q : GateQuestion)
    → (((gate_would_block q).would_block ≡ true) ↔ (
        (q.mode ≡ gate)
        × ((((includes q.action "scope" || includes q.action "extra_work") ≡ true)
              × (q.has_change_approval ≡ false))
            ⊎ ((q.action ≡ "package.seal") × (q.completeness_ok ≡ false)))))
      × (((gate_would_block q).would_block ≡ false) ↔ ((gate_would_block q).reason ≡ none))
unfolding gate_would_block
gate_would_block_iff q = (
  (ground (arith, eq_iff q.action "package.seal"), ground (arith, eq_iff q.action "package.seal")),
  (ground arith, ground arith),
)
