-- ===== src/Trust/Levels.antt =====
-- packages/trust/src/verdicts.ts: the levels of a verdict, which the report on a signature uses too.
pub data VerdictLevel : Type 0 where
  verified partial failed not_present not_applicable not_determined : VerdictLevel
