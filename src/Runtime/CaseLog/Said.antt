-- ===== src/Runtime/CaseLog/Said.antt =====
-- packages/runtime/src/case-log.ts: what the hashed text of an entry says of it.
use text.Mathlib.TextLemmas.{append_cancel_left, append_cancel_right}
use qev_platform.Base.{
  String, ◌≡◌, refl, sym, ap, ◌∙◌, Option, none, some, ◌<>◌, sort_by, text_lt, decimal,
}
use qev_platform.Json.{canonical_json, quote, join_commas}
use qev_platform.Json.Records.{
  entry_then, option_then, entry_then-cancel, option_then-cancel, entry_cancel,
}
use qev_platform.Runtime.CaseLog.{CaseLogEntry, body_json}

abbrev end_text : CaseLogEntry → String
end_text e =
    quote "seq" <> ":" <> decimal e.seq <> "," <> (quote "summary" <> ":" <> quote e.summary)

abbrev said : CaseLogEntry → String
said e = entry_then "at" e.at (
    entry_then "case_id" e.case_id (
      option_then "event_id" e.event_id (
        entry_then "flow_id" e.flow_id (
          entry_then "kind" e.kind (
            option_then "package_id" e.package_id
              (entry_then "prev_digest" e.prev_digest (end_text e)))))))

said_lem :
    (e : CaseLogEntry) (event pack : Option String)
    → e.event_id ≡ event
    → e.package_id ≡ pack
    → canonical_json (body_json e) ≡ "{" <> said e <> "}"
unfolding canonical_json body_json sort_by text_lt join_commas
said_lem e none none a b = rw (a, b) refl
said_lem e none (some p) a b = rw (a, b) refl
said_lem e (some i) none a b = rw (a, b) refl
said_lem e (some i) (some p) a b = rw (a, b) refl

summary_cancel :
    (d e : CaseLogEntry) → d.seq ≡ e.seq → end_text d ≡ end_text e → d.summary ≡ e.summary
summary_cancel d e n h =
    let number = quote "seq" <> ":" <> decimal d.seq <> "," in
    let mine = quote "summary" <> ":" <> quote d.summary in
    let yours = quote "summary" <> ":" <> quote e.summary in
    let same : number <> mine ≡ number <> yours =
      h ∙ ap (λ k. quote "seq" <> ":" <> decimal k <> "," <> yours) (sym n) in
    let last = append_cancel_left number mine yours same in
    let both =
      entry_cancel "summary" "summary" d.summary e.summary "" "" (ap (λ t. t <> "") last) in
    cc

same_entry :
    (d e : CaseLogEntry)
    → d.seq ≡ e.seq
    → d.at ≡ e.at
    → d.case_id ≡ e.case_id
    → d.flow_id ≡ e.flow_id
    → d.kind ≡ e.kind
    → d.event_id ≡ e.event_id
    → d.package_id ≡ e.package_id
    → d.summary ≡ e.summary
    → d.prev_digest ≡ e.prev_digest
    → d.digest ≡ e.digest
    → d ≡ e
same_entry d e a b c f k i p s l g = cc

-- Entries with one number, digest and hashed text are the same.
pub body_json-inj :
    (d e : CaseLogEntry)
    → d.seq ≡ e.seq
    → d.digest ≡ e.digest
    → canonical_json (body_json d) ≡ canonical_json (body_json e)
    → d ≡ e
body_json-inj d e n g h =
    let whole : "{" <> said d <> "}" ≡ "{" <> said e <> "}" =
      sym (said_lem d d.event_id d.package_id refl refl)
      ∙ h
      ∙ said_lem e e.event_id e.package_id refl refl in
    let inner =
      append_cancel_left "{" (said d) (said e)
        (append_cancel_right ("{" <> said d) ("{" <> said e) "}" whole) in
    let (_, at, t1) = entry_then-cancel "at" "at" d.at e.at _ _ inner in
    let (_, case_id, t2) = entry_then-cancel "case_id" "case_id" d.case_id e.case_id _ _ t1 in
    let (event, flow, t3) =
      option_then-cancel "event_id" "flow_id" d.flow_id e.flow_id _ _ d.event_id e.event_id
        (λ k. absurd cc) t2 in
    let (_, kind, t4) = entry_then-cancel "kind" "kind" d.kind e.kind _ _ t3 in
    let (pack, prev, t5) =
      option_then-cancel "package_id" "prev_digest" d.prev_digest e.prev_digest _ _ d.package_id
        e.package_id (λ k. absurd cc) t4 in
    let summary = summary_cancel d e n t5 in
    same_entry d e n at case_id flow kind event pack summary prev g
