-- ===== src/Gateway/Watch/Scans.antt =====
-- apps/gateway/src/file-watch.ts: which files a scan takes up, and which it passes over.
use mathlib.Core.Path.{subst}
use qev_platform.Base.{
  ℕ, ◌+◌, String, ◌≡◌, refl, sym, true, false, Option, none, some, List, [], ◌∷◌, ◌++◌, ltb, truthy,
  contains, contains-append, eq_refl, arith, inl, inr, Bool-cases,
}
use qev_platform.Event.{QevEvent}
use qev_platform.Ops.Matching.{MatchResult}
use qev_platform.Gateway.Watch.{
  Stat, FileNode, Entry, Entries, plain_file, directory, other_entry, unreadable, no_more, entry,
  FileWatch, Walk, ended, stopped, WatchOptions, then_walk, starts_with_dot, send, send_matched,
  file_match, ingest_file, file_key, see, visit_stat, join_path, join_rel, visit, walk, watch_of,
  scan_once,
}

-- Every file that is not hidden has been seen as it is.
unfoldable mutual
  pub IsCovered : (dir : String) → Entry → List String → Type 0
  IsCovered dir (plain_file node) seen =
      starts_with_dot node.name ≡ false
      → (st : Stat) × (node.stat ≡ some st)
        × (contains seen (file_key (join_path dir node.name) st) ≡ true)
  IsCovered dir (directory name es) seen =
      starts_with_dot name ≡ false → AreCovered (join_path dir name) es seen
  IsCovered dir (other_entry name) seen = Unit

  pub AreCovered : (dir : String) → Entries → List String → Type 0
  AreCovered dir unreadable seen = Unit
  AreCovered dir no_more seen = Unit
  AreCovered dir (entry e es) seen = IsCovered dir e seen × AreCovered dir es seen

-- Every file that is not hidden was last written at least 1.5 seconds ago.
unfoldable mutual
  pub IsSettled : (now : ℕ) → Entry → Type 0
  IsSettled now (plain_file node) =
      starts_with_dot node.name ≡ false
      → (st : Stat) → node.stat ≡ some st
      → ltb now (st.mtime_ms + 1500) ≡ false
  IsSettled now (directory name es) = starts_with_dot name ≡ false → AreSettled now es
  IsSettled now (other_entry name) = Unit

  pub AreSettled : (now : ℕ) → Entries → Type 0
  AreSettled now unreadable = Unit
  AreSettled now no_more = Unit
  AreSettled now (entry e es) = IsSettled now e × AreSettled now es

unfoldable mutual
  unfolding IsCovered AreCovered

  IsCovered-mono :
      (dir : String) (e : Entry) (s t : List String)
      → ((k : String) → contains s k ≡ true → contains t k ≡ true)
      → IsCovered dir e s
      → IsCovered dir e t
  IsCovered-mono dir (plain_file node) s t more c =
      λ shown. let (st, is_st, known) = c shown in (st, is_st, more _ known)
  IsCovered-mono dir (directory name es) s t more c =
      λ shown. AreCovered-mono (join_path dir name) es s t more (c shown)
  IsCovered-mono dir (other_entry name) s t more c = tt

  AreCovered-mono :
      (dir : String) (es : Entries) (s t : List String)
      → ((k : String) → contains s k ≡ true → contains t k ≡ true)
      → AreCovered dir es s
      → AreCovered dir es t
  AreCovered-mono dir unreadable s t more c = tt
  AreCovered-mono dir no_more s t more c = tt
  AreCovered-mono dir (entry e es) s t more c =
      (IsCovered-mono dir e s t more c.0, AreCovered-mono dir es s t more c.1)

abbrev pub Keeps : FileWatch → Walk → Type 0
Keeps w r = (k : String) → contains w.seen k ≡ true → contains (watch_of r).seen k ≡ true

module _ (opts : WatchOptions) (now : ℕ) where
  send-seen : (event : QevEvent) (w : FileWatch) → (watch_of (send opts event w)).seen ≡ w.seen
  unfolding send
  send-seen event w = elim (Bool-cases (opts.accepts event)) [
    | inl e ↦ rw e refl
    | inr e ↦ rw e refl
  ]

  matched-seen :
      (path name : String) (size : ℕ) (content : String) (found : MatchResult)
      (case_id : Option String) (w : FileWatch)
      → (watch_of (send_matched opts now path name size content found case_id w)).seen ≡ w.seen
  unfolding send_matched
  matched-seen path name size content found none w = refl
  matched-seen path name size content found (some case_id) w = elim (Bool-cases (truthy case_id)) [
    | inl e ↦ rw e (send-seen _ w)
    | inr e ↦ rw e refl
  ]

  pub ingest_file-seen :
      (path rel name : String) (size : ℕ) (content : Option String) (w : FileWatch)
      → (watch_of (ingest_file opts now path rel name size content w)).seen ≡ w.seen
  unfolding ingest_file
  ingest_file-seen path rel name size none w = refl
  ingest_file-seen path rel name size (some content) w =
      let found = file_match opts rel name in
      matched-seen path name size content found found.case_id w

  visit_stat-Keeps :
      (path rel : String) (node : FileNode) (stat : Option Stat) (w : FileWatch)
      → Keeps w (visit_stat opts now path rel node stat w)
  unfolding visit_stat
  visit_stat-Keeps path rel node none w k h = h
  visit_stat-Keeps path rel node (some st) w k h =
      elim (Bool-cases (ltb now (st.mtime_ms + 1500))) [
        | inl e ↦ rw e h
        | inr e ↦ elim (Bool-cases (contains w.seen (file_key path st))) [
          | inl old ↦ rw (e, old) h
          | inr new ↦
              let seen =
                ingest_file-seen path rel node.name st.size node.content
                  (see (file_key path st) w) in
              let more : contains (w.seen ++ file_key path st ∷ []) k ≡ true =
                rw (contains-append w.seen (file_key path st ∷ []) k, h) refl in
              rw (e, new) (subst (λ s. contains s k ≡ true) (sym seen) more)
        ]
      ]

  then-Keeps :
      (r : Walk) (next : FileWatch → Walk)
      → ((v : FileWatch) → Keeps v (next v))
      → Keeps (watch_of r) (then_walk r next)
  unfolding then_walk
  then-Keeps (ended v) next keeps k h = keeps v k h
  then-Keeps (stopped v) next keeps k h = h

  mutual
    unfolding visit walk

    visit-Keeps :
        (dir rel : String) (e : Entry) (w : FileWatch) → Keeps w (visit opts now dir rel e w)
    visit-Keeps dir rel (plain_file node) w k h = elim (Bool-cases (starts_with_dot node.name)) [
      | inl e ↦ rw e h
      | inr e ↦
          rw e (
            visit_stat-Keeps (join_path dir node.name) (join_rel rel node.name) node node.stat w k
              h)
    ]
    visit-Keeps dir rel (directory name es) w k h = elim (Bool-cases (starts_with_dot name)) [
      | inl e ↦ rw e h
      | inr e ↦ rw e (walk-Keeps (join_path dir name) (join_rel rel name) es w k h)
    ]
    visit-Keeps dir rel (other_entry name) w k h = h

    pub walk-Keeps :
        (dir rel : String) (es : Entries) (w : FileWatch) → Keeps w (walk opts now dir rel es w)
    walk-Keeps dir rel unreadable w k h = h
    walk-Keeps dir rel no_more w k h = h
    walk-Keeps dir rel (entry e es) w k h =
        then-Keeps (visit opts now dir rel e w) (λ v. walk opts now dir rel es v)
          (λ v. walk-Keeps dir rel es v) k (visit-Keeps dir rel e w k h)

  visit_stat-covers :
      (path rel : String) (node : FileNode) (stat : Option Stat) (w v : FileWatch)
      → ((st : Stat) → stat ≡ some st → ltb now (st.mtime_ms + 1500) ≡ false)
      → visit_stat opts now path rel node stat w ≡ ended v
      → (st : Stat) × (stat ≡ some st) × (contains v.seen (file_key path st) ≡ true)
  unfolding visit_stat
  visit_stat-covers path rel node none w v old e = absurd cc
  visit_stat-covers path rel node (some st) w v old e =
      let settled = old st refl in
      elim (Bool-cases (contains w.seen (file_key path st))) [
        | inl known ↦
            let same : ended w ≡ ended v = rw (settled, known) at e in
            let one : w ≡ v = cc in (st, refl, rw (← one) known)
        | inr new ↦
            let ran : ingest_file opts now path rel node.name st.size node.content
                  (see (file_key path st) w)
                ≡ ended v =
              rw (settled, new) at e in
            let seen =
              ingest_file-seen path rel node.name st.size node.content (see (file_key path st) w) in
            let after : contains (watch_of (ended v)).seen (file_key path st) ≡ true =
              rw
                (
                  ← ran,
                  seen,
                  contains-append w.seen (file_key path st ∷ []) (file_key path st),
                  eq_refl,
                )
                (ground arith) in
            (st, refl, after)
      ]

  then-ended :
      (r : Walk) (next : FileWatch → Walk) (v : FileWatch)
      → then_walk r next ≡ ended v
      → (u : FileWatch) × (r ≡ ended u) × (next u ≡ ended v)
  unfolding then_walk
  then-ended (ended u) next v e = (u, refl, e)
  then-ended (stopped u) next v e = absurd cc

  mutual
    unfolding visit walk IsCovered AreCovered IsSettled AreSettled

    visit-covers :
        (dir rel : String) (e : Entry) (w v : FileWatch)
        → IsSettled now e
        → visit opts now dir rel e w ≡ ended v
        → IsCovered dir e v.seen
    visit-covers dir rel (plain_file node) w v old e = λ shown.
        visit_stat-covers (join_path dir node.name) (join_rel rel node.name) node node.stat w v
          (old shown) (rw shown at e)
    visit-covers dir rel (directory name es) w v old e = λ shown.
        walk-covers (join_path dir name) (join_rel rel name) es w v (old shown) (rw shown at e)
    visit-covers dir rel (other_entry name) w v old e = tt

    walk-covers :
        (dir rel : String) (es : Entries) (w v : FileWatch)
        → AreSettled now es
        → walk opts now dir rel es w ≡ ended v
        → AreCovered dir es v.seen
    walk-covers dir rel unreadable w v old e = tt
    walk-covers dir rel no_more w v old e = tt
    walk-covers dir rel (entry e es) w v old h =
        let (u, first, rest) =
          then-ended (visit opts now dir rel e w) (λ t. walk opts now dir rel es t) v h in
        let keeps : Keeps u (ended v) = subst (Keeps u) rest (walk-Keeps dir rel es u) in
        (
          IsCovered-mono dir e u.seen v.seen keeps (visit-covers dir rel e w u old.0 first),
          walk-covers dir rel es u v old.1 rest,
        )

  pub visit_stat-quiet :
      (path rel : String) (node : FileNode) (stat : Option Stat) (w : FileWatch) (st : Stat)
      → stat ≡ some st
      → contains w.seen (file_key path st) ≡ true
      → visit_stat opts now path rel node stat w ≡ ended w
  unfolding visit_stat
  visit_stat-quiet path rel node stat w st e known =
      rw e (elim (Bool-cases (ltb now (st.mtime_ms + 1500))) [
        | inl young ↦ rw young refl
        | inr old ↦ rw (old, known) refl
      ])

  mutual
    unfolding visit walk then_walk IsCovered AreCovered

    visit-quiet :
        (dir rel : String) (e : Entry) (w : FileWatch)
        → IsCovered dir e w.seen
        → visit opts now dir rel e w ≡ ended w
    visit-quiet dir rel (plain_file node) w c = elim (Bool-cases (starts_with_dot node.name)) [
      | inl hidden ↦ rw hidden refl
      | inr shown ↦
          let (st, is_st, known) = c shown in
          rw shown (
            visit_stat-quiet (join_path dir node.name) (join_rel rel node.name) node node.stat w st
              is_st known)
    ]
    visit-quiet dir rel (directory name es) w c = elim (Bool-cases (starts_with_dot name)) [
      | inl hidden ↦ rw hidden refl
      | inr shown ↦ rw shown (walk-quiet (join_path dir name) (join_rel rel name) es w (c shown))
    ]
    visit-quiet dir rel (other_entry name) w c = refl

    walk-quiet :
        (dir rel : String) (es : Entries) (w : FileWatch)
        → AreCovered dir es w.seen
        → walk opts now dir rel es w ≡ ended w
    walk-quiet dir rel unreadable w c = refl
    walk-quiet dir rel no_more w c = refl
    walk-quiet dir rel (entry e es) w c =
        rw (visit-quiet dir rel e w c.0) (walk-quiet dir rel es w c.1)

-- A scan that came to its end is complete: once every file that is not hidden was left alone for 1.5
-- seconds, scanning the unchanged folder again, at any time, sends nothing and changes nothing.
pub scan_once-twice :
    (opts : WatchOptions) (now later : ℕ) (es : Entries) (w v : FileWatch)
    → AreSettled now es
    → walk opts now opts.watch_dir "" es w ≡ ended v
    → scan_once opts later es (scan_once opts now es w) ≡ scan_once opts now es w
unfolding scan_once
scan_once-twice opts now later es w v old e =
    let covered = walk-covers opts now opts.watch_dir "" es w v old e in
    rw (e, walk-quiet opts later opts.watch_dir "" es v covered) refl
