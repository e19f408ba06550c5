-- ===== src/Storage.antt =====
-- The sample store of internal/store/store.go: its records, and the reversal of a series. The database
-- is not modelled.
pub mod Reverse
pub mod Query
pub mod OneRow
mod Examples
use mcmon.Prelude.{ℕ, ℤ, String, Option}

-- A float64, as the fraction that the source computes it from.
pub record Number : Type 0 where
  pub num : ℤ
  pub den : ℕ

pub record Sample : Type 0 where
  pub target_id : String
  pub ts : ℤ
  pub min : Option Number
  pub p50 : Option Number
  pub max : Option Number
  pub loss_pct : Number

pub record MetricSample : Type 0 where
  pub target_id : String
  pub metric : String
  pub ts : ℤ
  pub value : Option Number
  pub extra : String
