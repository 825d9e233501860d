-- ===== src/Mapping.antt =====
-- The conversion of OpenTelemetry spans to Datadog spans: datadog-opentelemetry-mappings/src.
pub mod Keys
pub mod Value
pub mod Span
pub mod Names
pub mod Databases
pub mod Datadog
pub mod Errors
pub mod Transform
