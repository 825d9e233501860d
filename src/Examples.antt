-- ===== src/Examples.antt =====
-- The theorems at concrete inputs, and small runs of the model.
mod Glob
mod Registry
mod Sampling
mod Propagation
mod TraceContext
mod Composite
mod Exporter
mod Exact
mod Sampler
mod Mapping
mod Tracer
mod Names
