-- ===== src/Decision.antt =====
-- The sampling decision of a trace: dd-trace/src/sampling.rs.
pub mod Priority
pub mod Mechanism
pub mod Laws
pub use Priority.{SamplingPriority}
pub use Mechanism.{SamplingMechanism}
use dd_trace_rs.Prelude.{Option, none}

pub record SamplingDecision : Type 0 where
  pub priority : Option SamplingPriority
  pub mechanism : Option SamplingMechanism

-- No decision yet.
abbrev pub undecided : SamplingDecision
undecided = record { priority = none; mechanism = none }
