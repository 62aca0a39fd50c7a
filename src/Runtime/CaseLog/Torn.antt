-- ===== src/Runtime/CaseLog/Torn.antt =====
-- packages/runtime/src/case-log.ts: an append that is cut short between its two writes.
use qev_platform.Base.{
  ℕ, ◌+◌, String, ◌≡◌, true, false, some, List, [], ◌∷◌, ◌++◌, arith, inl, inr, length,
  length-append, Bool-cases, Option-cases,
}
use qev_platform.Runtime.CaseLog.{
  CaseLogEntry, AppendOptions, CaseLog, genesis, opened, init, ensure_ready, lines_of, new_entry,
  append_line, save_meta, append, verify_chain,
}
use qev_platform.Runtime.CaseLog.Chain.{Linked, verify_chain_iff}
use qev_platform.Runtime.CaseLog.History.{IsIntact, ready-open, new_entry-seq, appended-IsIntact}

module _ (sha256 : String → String) where
  -- The process stops after the line is written and before the meta file is, and starts again.
  abbrev pub torn : (at : String) → AppendOptions → CaseLog → CaseLog
  torn at opts log =
      opened (append_line (new_entry sha256 at opts (log.seq + 1) log.last_digest) log).lines
        log.meta

  Linked-seq :
      (n : ℕ) (prev : String) (es : List CaseLogEntry) (e : CaseLogEntry)
      → Linked sha256 n prev (es ++ e ∷ [])
      → e.seq ≡ n + length es + 1
  Linked-seq n prev [] e h = omega (arith, h.0)
  Linked-seq n prev (x ∷ es) e h = omega (arith, Linked-seq (n + 1) x.digest es e h.3)

  torn-lines :
      (at : String) (opts : AppendOptions) (log : CaseLog)
      → (ensure_ready (torn at opts log)).lines
        ≡ some (lines_of log.lines ++ new_entry sha256 at opts (log.seq + 1) log.last_digest ∷ [])
  unfolding init append_line
  torn-lines at opts log = elim (Option-cases log.meta) [
    | inl e ↦ rw (e, init)
    | inr (m, e) ↦ rw (e, init)
  ]

  torn-Linked :
      (at : String) (opts : AppendOptions) (log : CaseLog)
      → IsIntact sha256 log
      → Linked sha256 0 genesis (lines_of (ensure_ready (torn at opts log)).lines)
  torn-Linked at opts log h =
      rw (torn-lines at opts log)
        (unfold save_meta append_line in (appended-IsIntact sha256 at opts log h).linked)

  torn-append :
      (at at' : String) (opts opts' : AppendOptions) (log : CaseLog)
      → IsIntact sha256 log
      → (append sha256 at' opts' (torn at opts log)).0.lines
        ≡ some (
            (lines_of log.lines ++ new_entry sha256 at opts (log.seq + 1) log.last_digest ∷ [])
            ++ new_entry sha256 at' opts' (log.seq + 1) log.last_digest ∷ [])
  unfolding append append_line save_meta init
  torn-append at at' opts opts' log h = rw (h.saved, init)

  append-ready :
      (at : String) (opts : AppendOptions) (log : CaseLog)
      → (append sha256 at opts log).0.ready ≡ true
  unfolding append append_line save_meta init
  append-ready at opts log = ground arith

  torn-not-Linked :
      (at at' : String) (opts opts' : AppendOptions) (log : CaseLog)
      → IsIntact sha256 log
      → ¬ Linked sha256 0 genesis
          (lines_of (ensure_ready (append sha256 at' opts' (torn at opts log)).0).lines)
  torn-not-Linked at at' opts opts' log h linked =
      let e = new_entry sha256 at opts (log.seq + 1) log.last_digest in
      let e' = new_entry sha256 at' opts' (log.seq + 1) log.last_digest in
      let both : Linked sha256 0 genesis ((lines_of log.lines ++ e ∷ []) ++ e' ∷ []) =
        rw
          (
            ready-open (append sha256 at' opts' (torn at opts log)).0
                (append-ready at' opts' (torn at opts log)),
            torn-append at at' opts opts' log h,
          )
          at linked in
      omega (
        arith,
        Linked-seq 0 genesis (lines_of log.lines ++ e ∷ []) e' both,
        new_entry-seq sha256 at' opts' (log.seq + 1) log.last_digest,
        length-append (lines_of log.lines) (e ∷ []),
        h.seq,
      )

  -- When the process stops between the two writes of an append to an intact log and starts again, the
  -- log is still accepted, but the next append takes its number and its link from the stale meta
  -- file, and then verifyChain rejects the log.
  pub torn-verify_chain :
      (at at' : String) (opts opts' : AppendOptions) (log : CaseLog)
      → IsIntact sha256 log
      → ((verify_chain sha256 (torn at opts log)).ok ≡ true)
        × ((verify_chain sha256 (append sha256 at' opts' (torn at opts log)).0).ok ≡ false)
  torn-verify_chain at at' opts opts' log h = (
    (verify_chain_iff sha256 (torn at opts log)).0.1 (torn-Linked at opts log h),
    elim (Bool-cases (verify_chain sha256 (append sha256 at' opts' (torn at opts log)).0).ok) [
      | inl accepted ↦
          let linked =
            (verify_chain_iff sha256 (append sha256 at' opts' (torn at opts log)).0).0.0 accepted in
          absurd (torn-not-Linked at at' opts opts' log h linked)
      | inr rejected ↦ rejected
    ],
  )
