-- ===== src/Runtime/CaseLog/Tamper.antt =====
-- packages/runtime/src/case-log.ts: changes to a log that verifyChain finds, and those that it does not.
use mathlib.Core.Path.{subst}
use qev_platform.Base.{
  Collision, same_or_collision, ℕ, ◌+◌, String, ◌≡◌, ◌⊎◌, sym, ◌∙◌, true, false, List, [], ◌∷◌,
  ◌++◌, arith, inl, inr, length, length-append, Bool-cases,
}
use qev_platform.Runtime.CaseLog.{
  CaseLogEntry, CaseLog, genesis, ensure_ready, lines_of, entry_digest, verify_chain,
}
use qev_platform.Runtime.CaseLog.Said.{body_json-inj}
use qev_platform.Runtime.CaseLog.Chain.{Linked, end_digest, verify_chain_iff}

module _ (sha256 : String → String) where
  Linked-take :
      (n : ℕ) (prev : String) (es fs : List CaseLogEntry)
      → Linked sha256 n prev (es ++ fs)
      → Linked sha256 n prev es
  Linked-take n prev [] fs h = tt
  Linked-take n prev (e ∷ es) fs h = (h.0, h.1, h.2, Linked-take (n + 1) e.digest es fs h.3)

  Linked-drop :
      (n : ℕ) (prev : String) (es fs : List CaseLogEntry)
      → Linked sha256 n prev (es ++ fs)
      → Linked sha256 (n + length es) (end_digest prev es) fs
  Linked-drop n prev [] fs h = subst (λ k. Linked sha256 k prev fs) (omega arith) h
  Linked-drop n prev (e ∷ es) fs h =
      subst (λ k. Linked sha256 k (end_digest e.digest es) fs) (omega arith)
        (Linked-drop (n + 1) e.digest es fs h.3)

  accepted_lines :
      (log : CaseLog) (es : List CaseLogEntry)
      → lines_of (ensure_ready log).lines ≡ es
      → (verify_chain sha256 log).ok ≡ true
      → Linked sha256 0 genesis es
  accepted_lines log es same h =
      subst (Linked sha256 0 genesis) same ((verify_chain_iff sha256 log).0.0 h)

  rejected :
      (log : CaseLog)
      → ¬ ((verify_chain sha256 log).ok ≡ true)
      → (verify_chain sha256 log).ok ≡ false
  rejected log no_way = elim (Bool-cases (verify_chain sha256 log).ok) [
    | inl e ↦ absurd (no_way e)
    | inr e ↦ e
  ]

  -- Entries missing in the middle or at the front are found: of an accepted log, the lines before
  -- and behind a gap are rejected, whatever the hash is. Entries missing at the end are not found:
  -- the lines before are accepted.
  pub missing_entries :
      (log cut_inside cut_end : CaseLog) (es : List CaseLogEntry) (gone : CaseLogEntry)
      (more : List CaseLogEntry) (next : CaseLogEntry) (fs : List CaseLogEntry)
      → lines_of (ensure_ready log).lines ≡ es ++ (gone ∷ more) ++ next ∷ fs
      → lines_of (ensure_ready cut_inside).lines ≡ es ++ next ∷ fs
      → lines_of (ensure_ready cut_end).lines ≡ es
      → (verify_chain sha256 log).ok ≡ true
      → ((verify_chain sha256 cut_inside).ok ≡ false) × ((verify_chain sha256 cut_end).ok ≡ true)
  missing_entries log cut_inside cut_end es gone more next fs a b c h =
      let whole = accepted_lines log _ a h in
      let before = Linked-take 0 genesis (es ++ gone ∷ more) (next ∷ fs) whole in
      let behind = Linked-drop 0 genesis (es ++ gone ∷ more) (next ∷ fs) whole in
      (
        rejected cut_inside (λ ok.
            let moved = Linked-drop 0 genesis es (next ∷ fs) (accepted_lines cut_inside _ b ok) in
            omega (arith, behind.0, moved.0, length-append es (gone ∷ more))),
        (verify_chain_iff sha256 cut_end).0.1 (
            subst (Linked sha256 0 genesis) (sym c)
              (Linked-take 0 genesis es (gone ∷ more) before)),
      )

  -- An entry that is not the last cannot be replaced unnoticed: two accepted logs that differ at most
  -- in that one entry are the same in it too, in each of its fields, or two different texts with
  -- the same digest are at hand.
  pub altered_entry :
      (log log' : CaseLog) (es : List CaseLogEntry) (e e' next : CaseLogEntry)
      (fs : List CaseLogEntry)
      → lines_of (ensure_ready log).lines ≡ es ++ e ∷ next ∷ fs
      → lines_of (ensure_ready log').lines ≡ es ++ e' ∷ next ∷ fs
      → (verify_chain sha256 log).ok ≡ true
      → (verify_chain sha256 log').ok ≡ true
      → (e ≡ e') ⊎ Collision sha256
  unfolding entry_digest
  altered_entry log log' es e e' next fs a a' h h' =
      let tail = Linked-drop 0 genesis es (e ∷ next ∷ fs) (accepted_lines log _ a h) in
      let tail' = Linked-drop 0 genesis es (e' ∷ next ∷ fs) (accepted_lines log' _ a' h') in
      let same_digest : e.digest ≡ e'.digest = sym tail.3.1 ∙ tail'.3.1 in
      elim (same_or_collision sha256 _ _ (tail.2 ∙ (same_digest ∙ sym tail'.2))) [
        | inl same ↦ inl (body_json-inj e e' (omega (arith, tail.0, tail'.0)) same_digest same)
        | inr c ↦ inr c
      ]
