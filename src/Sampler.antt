-- ===== src/Sampler.antt =====
-- Sampling: the crate dd-trace-sampling.
pub mod Float
pub mod Rate
pub mod Limiter
pub mod Rules
pub mod Datadog
