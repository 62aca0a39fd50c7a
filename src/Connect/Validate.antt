-- ===== src/Connect/Validate.antt =====
-- packages/event-schema/src/validate.ts: the checks on a value that should be an event.
use qev_platform.Base.{
  String, ◌==◌, Bool, true, false, not, Option, none, some, List, [], ◌∷◌, ◌<>◌, truthy,
  if◌then◌else◌, is_some,
}
use qev_platform.Json.{Json, Items, undefined, null, bool, num, str, arr, obj, nil, cons, get_field}

-- String(value), as it stands in a message
unfoldable mutual
  pub shown : Json → String
  shown undefined = "undefined"
  shown null = "null"
  shown (bool true) = "true"
  shown (bool false) = "false"
  shown (num t) = t
  shown (str s) = s
  shown (arr xs) = shown_items xs
  shown (obj fs) = "[object Object]"

  -- An array joins its entries by commas; null and undefined leave nothing between them.
  pub shown_items : Items → String
  shown_items nil = ""
  shown_items (cons x nil) = shown_item x
  shown_items (cons x (cons y ys)) = shown_item x <> "," <> shown_items (cons y ys)

  pub shown_item : Json → String
  shown_item undefined = ""
  shown_item null = ""
  shown_item (bool true) = "true"
  shown_item (bool false) = "false"
  shown_item (num t) = t
  shown_item (str s) = s
  shown_item (arr xs) = shown_items xs
  shown_item (obj fs) = "[object Object]"

-- Not null, and of type "object", as arrays are too.
abbrev pub is_object : Json → Bool
is_object (arr xs) = true
is_object (obj fs) = true
is_object _ = false

-- e[key] of an object; an array has none of the keys that are asked for.
abbrev pub property : String → Json → Json
property key (obj fs) = get_field key fs
property key _ = undefined

-- A text that is not empty.
abbrev pub is_text : Json → Bool
is_text (str s) = truthy s
is_text _ = false

abbrev pub is_schema : Json → Bool
is_schema (str s) = s == "qev.event.v1"
is_schema _ = false

abbrev pub text_keys : List String
text_keys =
    "event_id" ∷ "occurred_at" ∷ "observed_at" ∷ "tenant_id" ∷ "flow_id" ∷ "case_id" ∷ "action"
    ∷ "outcome" ∷ []

-- The message about the first key whose value is not such a text.
unfoldable pub first_invalid : List String → Json → Option String
unfolding get_field
first_invalid [] e = none
first_invalid (key ∷ keys) e =
    let later = first_invalid keys e in
    if is_text (property key e) then later else some ("Missing or invalid " <> key)

abbrev pub missing_object : Json → Option String
missing_object e =
    if not (is_object (property "source" e))
    then some "Missing source"
    else if not (is_object (property "actor" e))
    then some "Missing actor"
    else if not (is_object (property "privacy" e))
    then some "Missing privacy"
    else none

abbrev pub first_of : Option String → Option String → Option String
first_of (some m) other = some m
first_of none other = other

-- The message of the error that is thrown, if any.
unfoldable pub assert_qev_event_v1 : Json → Option String
unfolding get_field first_invalid shown
assert_qev_event_v1 input =
    if not (is_object input)
    then some "Event must be an object"
    else if not (is_schema (property "schema" input))
    then some ("schema must be qev.event.v1, got " <> shown (property "schema" input))
    else first_of (first_invalid text_keys input) (missing_object input)

unfoldable pub is_qev_event_v1 : Json → Bool
unfolding assert_qev_event_v1
is_qev_event_v1 input = not (is_some (assert_qev_event_v1 input))
