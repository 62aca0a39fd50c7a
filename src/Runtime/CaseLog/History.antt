-- ===== src/Runtime/CaseLog/History.antt =====
-- packages/runtime/src/case-log.ts: appends and restarts, in any order.
use mathlib.Core.Path.{subst}
use qev_platform.Base.{
  ℕ, suc, ◌+◌, String, ◌≡◌, refl, sym, ap, ◌∙◌, true, none, some, List, [], ◌∷◌, arith, length,
  length-append, if◌then◌else◌,
}
use qev_platform.Runtime.CaseLog.{
  AppendOptions, CaseLog, genesis, opened, init, ensure_ready, lines_of, entry_digest, new_entry,
  append_line, save_meta, append, verify_chain, body_json,
}
use qev_platform.Runtime.CaseLog.Chain.{
  Linked, Linked-concat, end_digest, end_digest-concat, verify_chain_iff,
}

pub ready-open : (log : CaseLog) → log.ready ≡ true → ensure_ready log ≡ log
ready-open log r = ap (λ b. if b then log else init log) r

module _ (sha256 : String → String) where
  pub new_entry-seq :
      (at : String) (opts : AppendOptions) (n : ℕ) (prev : String)
      → (new_entry sha256 at opts n prev).seq ≡ n
  unfolding new_entry
  new_entry-seq at opts n prev = refl

  pub new_entry-prev :
      (at : String) (opts : AppendOptions) (n : ℕ) (prev : String)
      → (new_entry sha256 at opts n prev).prev_digest ≡ prev
  unfolding new_entry
  new_entry-prev at opts n prev = refl

  -- What an open log promises: its lines are linked, and the position and the digest in memory and
  -- in the meta file are those of its last line.
  pub record IsIntact (log : CaseLog) : Type 0 where
    pub ready : log.ready ≡ true
    pub linked : Linked sha256 0 genesis (lines_of log.lines)
    pub seq : log.seq ≡ length (lines_of log.lines)
    pub last : log.last_digest ≡ end_digest genesis (lines_of log.lines)
    pub saved : log.meta ≡ some (record { seq = log.seq; last_digest = log.last_digest })

  pub new_entry_digest :
      (at : String) (opts : AppendOptions) (n : ℕ) (prev : String)
      → entry_digest sha256 (new_entry sha256 at opts n prev)
        ≡ (new_entry sha256 at opts n prev).digest
  unfolding new_entry body_json
  new_entry_digest at opts n prev = refl

  init-IsIntact : IsIntact (init (opened none none))
  unfolding init
  init-IsIntact = record { ready = refl; linked = tt; seq = refl; last = refl; saved = refl }

  -- A restart opens the two files anew.
  restart-IsIntact : (log : CaseLog) → IsIntact log → IsIntact (init (opened log.lines log.meta))
  unfolding init
  restart-IsIntact log h =
      rw (h.saved)
        (record { ready = refl; linked = h.linked; seq = h.seq; last = h.last; saved = refl })

  pub appended-IsIntact :
      (at : String) (opts : AppendOptions) (log : CaseLog)
      → IsIntact log
      → IsIntact
          (save_meta (append_line (new_entry sha256 at opts (log.seq + 1) log.last_digest) log))
  unfolding append_line save_meta
  appended-IsIntact at opts log h =
      let e = new_entry sha256 at opts (log.seq + 1) log.last_digest in
      record {
        ready = h.ready;
        linked =
            Linked-concat sha256 0 genesis (lines_of log.lines) e h.linked
              (new_entry-seq at opts (log.seq + 1) log.last_digest ∙ omega (arith, h.seq))
              (new_entry-prev at opts (log.seq + 1) log.last_digest ∙ h.last)
              (new_entry_digest at opts (log.seq + 1) log.last_digest);
        seq =
            new_entry-seq at opts (log.seq + 1) log.last_digest
            ∙ omega (arith, h.seq, length-append (lines_of log.lines) (e ∷ []));
        last = sym (end_digest-concat genesis (lines_of log.lines) e);
        saved = refl;
      }

  append-IsIntact :
      (at : String) (opts : AppendOptions) (log : CaseLog)
      → IsIntact log
      → IsIntact (append sha256 at opts log).0
  unfolding append
  append-IsIntact at opts log h =
      subst
        (λ r.
          IsIntact (save_meta (append_line (new_entry sha256 at opts (r.seq + 1) r.last_digest) r)))
        (sym (ready-open log h.ready)) (appended-IsIntact at opts log h)

-- What happens to a log between its creation and a check: appends, and restarts between them.
pub data Act : Type 0 where
  appends : (at : String) → AppendOptions → Act
  restarts : Act

abbrev pub count_appends : List Act → ℕ
count_appends [] = 0
count_appends (appends at opts ∷ acts) = suc (count_appends acts)
count_appends (restarts ∷ acts) = count_appends acts

module _ (sha256 : String → String) where
  unfoldable pub act : Act → CaseLog → CaseLog
  unfolding append init
  act (appends at opts) log = (append sha256 at opts log).0
  act restarts log = init (opened log.lines log.meta)

  unfoldable pub run_acts : List Act → CaseLog → CaseLog
  unfolding act
  run_acts [] log = log
  run_acts (a ∷ acts) log = run_acts acts (act a log)

  act-IsIntact : (a : Act) (log : CaseLog) → IsIntact sha256 log → IsIntact sha256 (act a log)
  unfolding act
  act-IsIntact (appends at opts) log h = append-IsIntact sha256 at opts log h
  act-IsIntact restarts log h = restart-IsIntact sha256 log h

  run_acts-IsIntact :
      (acts : List Act) (log : CaseLog) → IsIntact sha256 log → IsIntact sha256 (run_acts acts log)
  unfolding run_acts
  run_acts-IsIntact [] log h = h
  run_acts-IsIntact (a ∷ acts) log h = run_acts-IsIntact acts (act a log) (act-IsIntact a log h)

  count-act :
      (a : Act) (log : CaseLog)
      → IsIntact sha256 log
      → length (lines_of (act a log).lines) ≡ length (lines_of log.lines) + count_appends (a ∷ [])
  unfolding act append append_line save_meta init
  count-act (appends at opts) log h =
      rw (ready-open log h.ready) (length-append (lines_of log.lines) (_ ∷ []))
  count-act restarts log h = rw (h.saved, init) (omega arith)

  count-run_acts :
      (acts : List Act) (log : CaseLog)
      → IsIntact sha256 log
      → length (lines_of (run_acts acts log).lines)
        ≡ length (lines_of log.lines) + count_appends acts
  unfolding run_acts
  count-run_acts [] log h = omega arith
  count-run_acts (appends at opts ∷ acts) log h = omega (
    arith,
    count-run_acts acts (act (appends at opts) log) (act-IsIntact (appends at opts) log h),
    count-act (appends at opts) log h,
  )
  count-run_acts (restarts ∷ acts) log h = omega (
    arith,
    count-run_acts acts (act restarts log) (act-IsIntact restarts log h),
    count-act restarts log h,
  )

  -- After any appends, with restarts in between, verifyChain accepts the log and counts as many
  -- entries as were appended.
  pub history_verified :
      (acts : List Act)
      → ((verify_chain sha256 (run_acts acts (init (opened none none)))).ok ≡ true)
        × ((verify_chain sha256 (run_acts acts (init (opened none none)))).entries
            ≡ count_appends acts)
  history_verified acts =
      let log = run_acts acts (init (opened none none)) in
      let h = run_acts-IsIntact acts (init (opened none none)) (init-IsIntact sha256) in
      let iff = verify_chain_iff sha256 log in
      let open_log = ready-open log h.ready in
      (
        iff.0.1 (rw open_log h.linked),
        iff.1
            ∙ (ap (λ r. length (lines_of r.lines)) open_log
                ∙ (count-run_acts acts (init (opened none none)) (init-IsIntact sha256)
                    ∙ (unfold init in omega arith))),
      )
