-- ===== src/Tests/Valid.antt =====
-- The sample database satisfies the invariants.
use harpia_api.Prelude.{refl, arith}
use harpia_api.UnitHolds.{IsConsistent}
use harpia_api.Receivables.Ledger.{IsReconciled}
use harpia_api.Tests.Samples.{sample}

pub sample-IsConsistent : IsConsistent sample
sample-IsConsistent = record {
  unit_ids = λ u. ground arith;
  proposal_ids = λ p. ground arith;
  sale_ids = λ s. ground arith;
  reserved = λ u. ground arith;
  sold = λ u. ground arith;
}

pub sample-IsReconciled : IsReconciled sample
sample-IsReconciled = record {
  ids = λ k. ground arith;
  payment_ids = λ k. ground arith;
  settled = (record { paid = refl; within = omega arith; status = (omega arith, omega arith) }, tt);
  positive = (omega arith, tt);
  linked = λ k none_left. ground arith;
}
