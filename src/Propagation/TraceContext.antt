-- ===== src/Propagation/TraceContext.antt =====
-- The W3C trace context headers: dd-trace-propagation/src/tracecontext.rs.
pub mod Replace
pub mod Inject
pub mod Bounds
pub mod Traceparent
pub mod RoundTrip
pub mod Extract
pub mod Decision
