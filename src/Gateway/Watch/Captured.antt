-- ===== src/Gateway/Watch/Captured.antt =====
-- apps/gateway/src/file-watch.ts: the event that a file becomes, and what happens to a file that fails.
use qev_platform.Base.{
  ℕ, ◌+◌, String, ◌≡◌, refl, sym, true, false, not, ◌&&◌, Option, none, some, List, [], ◌∷◌, ◌++◌,
  ltb, eqb, length, truthy, contains, contains-append, eq_refl, arith, inl, inr, Bool-cases,
  or_else, ◌∙◌,
}
use qev_platform.Event.{QevEvent}
use qev_platform.Ops.Matching.{
  MatchConfidence, exact, high, uncertain, unmatched, conflicting, MatchCandidate, decide_match,
  match_case, is_uncertain, is_open, is_exact, ties, ranked_candidates,
}
use qev_platform.Gateway.Watch.{
  Stat, FileNode, FileWatch, ended, stopped, WatchOptions, match_gaps, file_event, send,
  send_matched, file_input, file_match, ingest_file, file_key, see, visit_stat, watch_of, scan_once,
  Entries,
}
use qev_platform.Gateway.Watch.Scans.{ingest_file-seen, walk-Keeps, visit_stat-quiet}

named-review :
    (known : List String) (cs : List MatchCandidate) {c : String}
    → (decide_match known cs).case_id ≡ some c
    → (decide_match known cs).needs_manual_review ≡ is_uncertain (decide_match known cs).confidence
unfolding decide_match
named-review known [] h = absurd cc
named-review known (best ∷ rest) {c} h = elim (Bool-cases (ties best rest)) [
  | inl t ↦ let gone : none ≡ some c = rw t at h in absurd cc
  | inr t ↦ elim (Bool-cases (not (is_open known best.case_id) && not (is_exact best.confidence))) [
    | inl u ↦ rw (t, u) refl
    | inr u ↦ rw (t, u) refl
  ]
]

gaps-uncertain :
    (c : MatchConfidence) (detail : String)
    → eqb (length (match_gaps c detail)) 0 ≡ not (is_uncertain c)
gaps-uncertain uncertain detail = refl
gaps-uncertain exact detail = refl
gaps-uncertain high detail = refl
gaps-uncertain unmatched detail = refl
gaps-uncertain conflicting detail = refl

-- What becomes of a file that can be read: without a case it is dropped, with one an event of it is sent.
pub data Captured (opts : WatchOptions) (rel name : String) (w v : FileWatch) : Type 0 where
  dropped :
      ((c : String) → (file_match opts rel name).case_id ≡ some c → truthy c ≡ false)
      → v ≡ w
      → Captured opts rel name w v
  captured :
      (e : QevEvent)
      → v.sent ≡ w.sent ++ e ∷ []
      → (file_match opts rel name).case_id ≡ some e.case_id
      → eqb (length (or_else e.known_gaps [])) 0
        ≡ not (file_match opts rel name).needs_manual_review
      → Captured opts rel name w v

module _ (opts : WatchOptions) (now : ℕ) (id path rel name : String) (size : ℕ)
    (content case_id : String) where
  event-case :
      (file_match opts rel name).case_id ≡ some case_id
      → (file_match opts rel name).case_id
        ≡ some
            (file_event opts now id path name size content
              (file_match opts rel name)
              case_id).case_id
  unfolding file_event
  event-case e = e

  event-gaps :
      (file_match opts rel name).case_id ≡ some case_id
      → eqb
          (length (
            or_else
              (file_event opts now id path name size content
                (file_match opts rel name)
                case_id).known_gaps
              []))
          0
        ≡ not (file_match opts rel name).needs_manual_review
  unfolding file_event match_case
  event-gaps e =
      rw (named-review opts.known_case_ids (ranked_candidates (file_input opts rel name)) e)
        (gaps-uncertain (file_match opts rel name).confidence (file_match opts rel name).detail)

module _ (opts : WatchOptions) (now : ℕ) where
  send-sent : (e : QevEvent) (w : FileWatch) → (watch_of (send opts e w)).sent ≡ w.sent ++ e ∷ []
  unfolding send
  send-sent e w = elim (Bool-cases (opts.accepts e)) [ inl a ↦ rw a refl | inr a ↦ rw a refl ]

  matched-Captured :
      (path rel name : String) (size : ℕ) (content : String) (case_id : Option String)
      (w : FileWatch)
      → (file_match opts rel name).case_id ≡ case_id
      → Captured opts rel name w (
          watch_of
            (send_matched opts now path name size content (file_match opts rel name) case_id w))
  unfolding send_matched
  matched-Captured path rel name size content none w e =
      dropped (λ c h. let gone : none ≡ some c = sym e ∙ h in absurd cc) refl
  matched-Captured path rel name size content (some id) w e = elim (Bool-cases (truthy id)) [
    | inl t ↦ rw t (
        let found = file_match opts rel name in
        let event =
          file_event opts now (opts.new_id (length w.sent)) path name size content found id in
        captured event (send-sent event w)
          (event-case opts now (opts.new_id (length w.sent)) path rel name size content id e)
          (event-gaps opts now (opts.new_id (length w.sent)) path rel name size content id e))
    | inr t ↦ rw t (
        dropped
          (λ c h.
            let both : ◌≡◌ {A = Option String} (some id) (some c) = sym e ∙ h in
            let same : id ≡ c = cc in rw (← same) t)
          refl)
  ]

  -- A file that can be read is dropped if it belongs to no case; else an event for the case that
  -- matchCase names is sent, and it carries a known gap exactly if the match calls for a review.
  pub ingest_file-Captured :
      (path rel name : String) (size : ℕ) (content : String) (w : FileWatch)
      → Captured opts rel name w
          (watch_of (ingest_file opts now path rel name size (some content) w))
  unfolding ingest_file
  ingest_file-Captured path rel name size content w =
      matched-Captured path rel name size content (file_match opts rel name).case_id w refl

walk_inj : {u v : FileWatch} → stopped u ≡ stopped v → u ≡ v
walk_inj e = cc

after_failure :
    (opts : WatchOptions) (now : ℕ) (path rel : String) (node : FileNode) (st : Stat)
    (w v : FileWatch)
    → visit_stat opts now path rel node (some st) w ≡ stopped v
    → contains v.seen (file_key path st) ≡ true
unfolding visit_stat
after_failure opts now path rel node st w v e = elim (Bool-cases (ltb now (st.mtime_ms + 1500))) [
  | inl young ↦ let went : ended w ≡ stopped v = rw young at e in absurd cc
  | inr old ↦ elim (Bool-cases (contains w.seen (file_key path st))) [
    | inl known ↦ let went : ended w ≡ stopped v = rw (old, known) at e in absurd cc
    | inr new ↦
        let from = see (file_key path st) w in
        let ran : ingest_file opts now path rel node.name st.size node.content from ≡ stopped v =
          rw (old, new) at e in
        let seen = ingest_file-seen opts now path rel node.name st.size node.content from in
        let after : contains (watch_of (stopped v)).seen (file_key path st) ≡ true =
          rw
            (
              ← ran,
              seen,
              contains-append w.seen (file_key path st ∷ []) (file_key path st),
              eq_refl,
            )
            (ground arith) in
        after
  ]
]

-- Scans one after the other, each at its time and over what the folder then holds.
abbrev pub scans : WatchOptions → List (ℕ × Entries) → FileWatch → FileWatch
scans opts [] w = w
scans opts ((now, es) ∷ rest) w = scans opts rest (scan_once opts now es w)

scans-Keeps :
    (opts : WatchOptions) (later : List (ℕ × Entries)) (key : String) (w : FileWatch)
    → contains w.seen key ≡ true
    → contains (scans opts later w).seen key ≡ true
unfolding scan_once
scans-Keeps opts [] key w h = h
scans-Keeps opts ((now, es) ∷ rest) key w h =
    scans-Keeps opts rest key (scan_once opts now es w)
      (walk-Keeps opts now opts.watch_dir "" es w key h)

-- A file whose ingestion fails, because it cannot be read or its event is not accepted, is not tried
-- again while its size and date stay as they are: whatever scans follow, and whatever they find in
-- the folder, a visit of the file after them passes over it and changes nothing.
pub failed-passed_over :
    (opts : WatchOptions) (now : ℕ) (path rel : String) (node : FileNode) (st : Stat)
    (w v : FileWatch)
    → visit_stat opts now path rel node (some st) w ≡ stopped v
    → (later : List (ℕ × Entries)) (after : ℕ)
    → visit_stat opts after path rel node (some st) (scans opts later v)
      ≡ ended (scans opts later v)
failed-passed_over opts now path rel node st w v e later after =
    visit_stat-quiet opts after path rel node (some st) (scans opts later v) st refl
      (scans-Keeps opts later (file_key path st) v (after_failure opts now path rel node st w v e))
