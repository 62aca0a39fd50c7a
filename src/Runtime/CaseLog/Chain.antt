-- ===== src/Runtime/CaseLog/Chain.antt =====
-- packages/runtime/src/case-log.ts: which logs verifyChain accepts.
use qev_platform.Base.{
  ℕ, ◌+◌, String, ◌≡◌, ◌↔◌, refl, true, List, [], ◌∷◌, ◌++◌, arith, eq_iff, eqb, length,
}
use qev_platform.Runtime.CaseLog.{
  CaseLogEntry, CaseLog, genesis, ensure_ready, lines_of, entry_digest, entry_failures,
  chain_failures, verify_chain,
}

-- The digest that the next entry has to name.
abbrev pub end_digest : String → List CaseLogEntry → String
end_digest prev [] = prev
end_digest prev (e ∷ es) = end_digest e.digest es

module _ (sha256 : String → String) where
  -- Entries that follow position `n` and digest `prev`: numbered without a gap, each naming the
  -- digest before it, each with the digest of its own body.
  abbrev pub Linked : ℕ → String → List CaseLogEntry → Type 0
  Linked n prev [] = Unit
  Linked n prev (e ∷ es) =
      (e.seq ≡ n + 1)
      × (e.prev_digest ≡ prev)
      × (entry_digest sha256 e ≡ e.digest)
      × Linked (n + 1) e.digest es

  entry_failures-nil :
      (n : ℕ) (prev : String) (e : CaseLogEntry)
      → entry_failures sha256 n prev e ≡ []
      → (e.seq ≡ n) × (e.prev_digest ≡ prev) × (entry_digest sha256 e ≡ e.digest)
  entry_failures-nil n prev e h =
      ground (arith, eq_iff e.prev_digest prev, eq_iff (entry_digest sha256 e) e.digest)

  entry_failures_of_linked :
      (n : ℕ) (prev : String) (e : CaseLogEntry)
      → e.seq ≡ n
      → e.prev_digest ≡ prev
      → entry_digest sha256 e ≡ e.digest
      → entry_failures sha256 n prev e ≡ []
  entry_failures_of_linked n prev e a b c =
      ground (arith, eq_iff e.prev_digest prev, eq_iff (entry_digest sha256 e) e.digest)

  append-nil_left : (xs ys : List String) → xs ++ ys ≡ [] → xs ≡ []
  append-nil_left [] ys h = refl
  append-nil_left (x ∷ xs) ys h = cc

  append-nil_right : (xs ys : List String) → xs ++ ys ≡ [] → ys ≡ []
  append-nil_right [] ys h = h
  append-nil_right (x ∷ xs) ys h = cc

  chain_failures-nil :
      (n : ℕ) (prev : String) (es : List CaseLogEntry)
      → chain_failures sha256 n prev es ≡ []
      → Linked n prev es
  unfolding chain_failures
  chain_failures-nil n prev [] h = tt
  chain_failures-nil n prev (e ∷ es) h =
      let mine = entry_failures sha256 (n + 1) prev e in
      let rest = chain_failures sha256 (n + 1) e.digest es in
      let (a, b, c) = entry_failures-nil (n + 1) prev e (append-nil_left mine rest h) in
      (a, b, c, chain_failures-nil (n + 1) e.digest es (append-nil_right mine rest h))

  chain_failures_of_Linked :
      (n : ℕ) (prev : String) (es : List CaseLogEntry)
      → Linked n prev es
      → chain_failures sha256 n prev es ≡ []
  unfolding chain_failures
  chain_failures_of_Linked n prev [] h = refl
  chain_failures_of_Linked n prev (e ∷ es) h =
      rw (entry_failures_of_linked (n + 1) prev e h.0 h.1 h.2)
        (chain_failures_of_Linked (n + 1) e.digest es h.3)

  no_failures : (xs : List String) → eqb (length xs) 0 ≡ true → xs ≡ []
  no_failures [] h = refl
  no_failures (x ∷ xs) h = ground arith

  -- verifyChain accepts exactly the logs whose entries are numbered 1, 2, 3, … and linked from
  -- sixty-four zeros, each with the digest of its own body; it counts the lines of the file.
  pub verify_chain_iff :
      (log : CaseLog)
      → (((verify_chain sha256 log).ok ≡ true)
          ↔ Linked 0 genesis (lines_of (ensure_ready log).lines))
        × ((verify_chain sha256 log).entries ≡ length (lines_of (ensure_ready log).lines))
  unfolding verify_chain
  verify_chain_iff log =
      let es = lines_of (ensure_ready log).lines in
      (
        (
          (λ h. chain_failures-nil 0 genesis es (no_failures _ h)),
          (λ h. rw (chain_failures_of_Linked 0 genesis es h)),
        ),
        refl,
      )

  pub Linked-concat :
      (n : ℕ) (prev : String) (es : List CaseLogEntry) (e : CaseLogEntry)
      → Linked n prev es
      → e.seq ≡ n + length es + 1
      → e.prev_digest ≡ end_digest prev es
      → entry_digest sha256 e ≡ e.digest
      → Linked n prev (es ++ e ∷ [])
  Linked-concat n prev [] e h a b c = (omega arith, b, c, tt)
  Linked-concat n prev (x ∷ es) e h a b c =
      (h.0, h.1, h.2, Linked-concat (n + 1) x.digest es e h.3 (omega arith) b c)

pub end_digest-concat :
    (prev : String) (es : List CaseLogEntry) (e : CaseLogEntry)
    → end_digest prev (es ++ e ∷ []) ≡ e.digest
end_digest-concat prev [] e = refl
end_digest-concat prev (x ∷ es) e = end_digest-concat x.digest es e
