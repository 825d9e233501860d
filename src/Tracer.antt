-- ===== src/Tracer.antt =====
-- The crate datadog-opentelemetry: the parts that join the sampler, the registry, the propagators and
-- the conversion to the OpenTelemetry SDK.
pub mod Context
pub mod TraceId
pub mod ShouldSample
pub mod Processor
pub mod Propagator
