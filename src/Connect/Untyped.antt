-- ===== src/Connect/Untyped.antt =====
-- packages/event-schema/src/normalize-webhook.ts: the event of a body as JSON.parse gives it, whatever the
-- types of its values. An object has the toString that all objects have.
use qev_platform.Base.{
  String, Bool, true, false, Option, none, some, or_else, truthy, ◌<>◌, if◌then◌else◌,
}
use qev_platform.Json.{
  Json, Items, undefined, null, str, arr, obj, nil, cons, end, field, is_truthy,
}
use qev_platform.Connect.Validate.{shown, property}
use qev_platform.Connect.Webhook.{given_or, text_value}

-- What the caller gives beside the body.
pub record Delivery : Type 0 where
  pub raw_body : String
  pub tenant_id : String
  pub connector_id : String
  pub connector_version : Option String
  pub default_flow_id : Option String

unfoldable pub value_id : (connector_id fresh : String) → Json → String
unfolding shown
value_id connector_id fresh id =
    if is_truthy id then "wh_" <> connector_id <> "_" <> shown id else fresh

-- value?.length in a test
abbrev has_length : Json → Bool
has_length (str s) = truthy s
has_length (arr nil) = false
has_length (arr (cons x xs)) = true
has_length (obj fs) = is_truthy (property "length" (obj fs))
has_length _ = false

abbrev pub missing_artifacts : Json
missing_artifacts = obj (
    field "code" (str "missing_artifacts") (
      field "message" (str "No artifact fingerprints were supplied with this event.")
        (field "severity" (str "warning") end)))

unfoldable pub then_item : Items → Json → Items
then_item nil value = cons value nil
then_item (cons x xs) value = cons x (then_item xs value)

unfoldable pub letters : String → Items
letters String.[] = nil
letters (String.◌∷◌ c s) = cons (str (String.◌∷◌ c "")) (letters s)

-- [...value, gap], `none` where the value cannot be iterated
unfoldable pub with_gap : Json → Option Json
unfolding then_item letters
with_gap (arr xs) = some (arr (then_item xs missing_artifacts))
with_gap (str s) = some (arr (then_item (letters s) missing_artifacts))
with_gap _ = none

unfoldable pub value_gaps : (artifacts gaps : Json) → Option Json
unfolding with_gap
value_gaps artifacts gaps =
    if has_length artifacts
    then some (given_or gaps (arr nil))
    else with_gap (given_or gaps (arr nil))

abbrev value_time : (occurred : Json) (now : String) → Json
value_time occurred now =
    if is_truthy occurred
    then obj (field "source_system_time" occurred (field "gateway_receipt_time" (str now) end))
    else obj (field "gateway_receipt_time" (str now) end)

abbrev value_actor : Json → Json
value_actor actor = obj (
    field "id" (given_or (property "id" actor) (str "unknown")) (
      field "display_name" (property "display_name" actor) (
        field "identity_assurance"
          (if is_truthy (property "id" actor) then str "source_asserted" else str "typed") end)))

-- body.case_id ?? body.payload?.case_id
abbrev pub value_case : Json → Json
value_case body = given_or (property "case_id" body) (property "case_id" (property "payload" body))

module _ (sha256 : String → String) (fresh now : String) (opts : Delivery) where
  abbrev value_source : Json → Json
  value_source provider_id = obj (
      field "system" (str opts.connector_id) (
        field "connector" (str "generic-webhook") (
          field "connector_version" (str (or_else opts.connector_version "0.1.0")) (
            field "provider_event_id" provider_id (
              field "raw_body_sha256" (str (sha256 opts.raw_body))
                (field "ingestion_path" (str "webhook") end))))))

  unfoldable pub value_event : (case_id : String) (gaps body : Json) → Json
  unfolding value_id
  value_event case_id gaps body = obj (
      field "schema" (str "qev.event.v1") (
        field "event_id"
          (str (value_id opts.connector_id fresh (property "provider_event_id" body)))
          (field "occurred_at" (given_or (property "occurred_at" body) (str now)) (
            field "observed_at" (str now) (
              field "tenant_id" (str opts.tenant_id) (
                field "flow_id"
                  (given_or (property "flow_id" body)
                    (str (or_else opts.default_flow_id "devops-change")))
                  (field "case_id" (str case_id) (
                    field "source" (value_source (property "provider_event_id" body)) (
                      field "actor" (value_actor (property "actor" body)) (
                        field "action" (given_or (property "action" body) (str "webhook.received"))
                          (field "target" (property "target" body) (
                            field "outcome" (given_or (property "outcome" body) (str "unknown")) (
                              field "artifacts" (property "artifacts" body) (
                                field "privacy"
                                  (obj (
                                    field "default_mode" (str "full")
                                      (field "field_modes" (obj end) end)))
                                  (field "payload" (given_or (property "payload" body) (obj end)) (
                                    field "known_gaps" gaps (
                                      field "time_assurance"
                                        (value_time (property "occurred_at" body) now)
                                        end)))))))))))))))))

  abbrev pub value_noted : (case_id : String) → Option Json → Json → Option Json
  value_noted case_id none body = none
  value_noted case_id (some gaps) body = some (value_event case_id gaps body)

  unfoldable pub value_cased : Option String → Json → Option Json
  unfolding value_gaps
  value_cased none body = none
  value_cased (some case_id) body =
      value_noted case_id (value_gaps (property "artifacts" body) (property "known_gaps" body)) body

  -- `none` is an error that is thrown: of a body that is null, one without a case, or known gaps that
  -- are no list where one is added.
  unfoldable pub normalize_value : Json → Option Json
  unfolding value_cased
  normalize_value null = none
  normalize_value undefined = none
  normalize_value body = value_cased (text_value (value_case body)) body
