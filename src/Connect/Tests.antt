-- ===== src/Connect/Tests.antt =====
-- packages/event-schema/src: a delivery whose body has values of other types, and a value that passes the
-- type guard.
use qev_platform.Base.{◌≡◌, ◌↔◌, refl, true, false, none, some, [], ◌∷◌, All}
use qev_platform.Json.{Json, num, str, arr, nil, cons, obj, field, end, get_field}
use qev_platform.Connect.Validate.{
  property, is_qev_event_v1, assert_qev_event_v1, first_invalid, shown,
}
use qev_platform.Connect.Untyped.{
  Delivery, missing_artifacts, value_id, value_gaps, with_gap, then_item, value_event, value_cased,
  normalize_value,
}
use qev_platform.Connect.Named.{IsNamed, normalize_value-is_qev_event_v1}
use qev_platform.Connect.Samples.{hash}

abbrev options : Delivery
options = record {
  raw_body = "{}";
  tenant_id = "t1";
  connector_id = "github";
  connector_version = none;
  default_flow_id = some "field-service";
}

-- A body whose outcome is an empty text and whose action is a number.
abbrev odd : Json
odd = obj (
    field "case_id" (str "CHG-42") (
      field "outcome" (str "")
        (field "action" (num "7") (field "provider_event_id" (num "77") end))))

abbrev odd_event : Json
odd_event = value_event hash "evt_9" "now" options "CHG-42" (arr (cons missing_artifacts nil)) odd

odd_normalized : normalize_value hash "evt_9" "now" options odd ≡ some odd_event
unfolding normalize_value value_cased value_gaps with_gap then_item get_field
odd_normalized = refl

normalize_value-is_qev_event_v1_example :
    (is_qev_event_v1 odd_event ≡ true)
    ↔ All
        (λ key. IsNamed (property key odd))
        ("occurred_at" ∷ "flow_id" ∷ "action" ∷ "outcome" ∷ [])
normalize_value-is_qev_event_v1_example =
    normalize_value-is_qev_event_v1 hash "evt_9" "now" options odd odd_event refl refl refl refl
      odd_normalized

odd_rejected : is_qev_event_v1 odd_event ≡ false
unfolding is_qev_event_v1 assert_qev_event_v1 first_invalid get_field value_event value_id shown
odd_rejected = refl

-- The guard does not look into its objects: an array passes for a source, and any text for an outcome.
abbrev loose : Json
loose = obj (
    field "schema" (str "qev.event.v1") (
      field "event_id" (str "e") (
        field "occurred_at" (str "now") (
          field "observed_at" (str "now") (
            field "tenant_id" (str "t") (
              field "flow_id" (str "f") (
                field "case_id" (str "c") (
                  field "action" (str "a") (
                    field "outcome" (str "perhaps") (
                      field "source" (arr nil)
                        (field "actor" (arr nil) (field "privacy" (arr nil) end))))))))))))

loose_accepted : is_qev_event_v1 loose ≡ true
unfolding is_qev_event_v1 assert_qev_event_v1 first_invalid get_field
loose_accepted = refl
