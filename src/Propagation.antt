-- ===== src/Propagation.antt =====
-- Trace context propagation: dd-trace-propagation. A module for each part of a carrier's headers.
pub mod Ids
pub mod Tracestate
pub mod Context
pub mod Datadog
pub mod TraceContext
pub mod Composite
