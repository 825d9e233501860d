-- ===== src/Lib.antt =====
-- A model of the core of dd-trace-rs, the Datadog tracing library on top of OpenTelemetry.
--
-- A span is started and finished through the span processor, which keeps the open traces in a
-- registry and hands out a chunk of spans when a trace, or enough of it, is finished. A trace carries
-- a sampling decision, taken by rules whose patterns are globs. Between services the trace travels
-- in headers, written and read by the propagators.
--
-- Parts and files:
-- Glob: `GlobMatcher` of dd-trace-sampling/src/glob_matcher.rs. The loop of `matches` is `loop` on
--   fuel, one round of it is `round`. The fuel is `enough`, the subject's length times the pattern's:
--   every return to a star starts one byte later in the subject, and between two returns a round
--   uses up a pattern byte. The matcher's cache is explicit state; the lru crate is a record of
--   operations with the hypothesis `LruLaws` (Glob/Cached) that it never invents an answer.
--   Lower-casing is a parameter.
-- Registry: `InnerTraceRegistry` and, in Registry/Shards, `TraceRegistry` of
--   datadog-opentelemetry/src/span_processor.rs, without the feature active-span-metadata. A method
--   with `&mut self` is a function that returns the new registry. The OpenTelemetry span and the
--   hash of the trace id are parameters. Counters are 64-bit and wrap. Since every method runs under
--   its shard's lock, a concurrent run is a sequence of calls (Registry/Events).
-- Decision: `SamplingPriority`, `SamplingMechanism`, `SamplingDecision` of dd-trace/src/sampling.rs.
--   `-val` wraps around, as in a build without overflow checks.
-- Propagation: the crate dd-trace-propagation. Ids, Tracestate and Context are
--   dd-trace-propagation/src/context.rs with error.rs and carrier.rs beside it; Datadog is
--   dd-trace-propagation/src/datadog.rs and TraceContext dd-trace-propagation/src/tracecontext.rs
--   (Replace, Inject, Traceparent, Extract). Composite is `DatadogCompositePropagator` of
--   dd-trace-propagation/src/lib.rs, which runs the styles that the settings name over one carrier
--   and resolves what they extract. A carrier is a type with `set`, or a function `get`; the one
--   that is made concrete is the `HashMap`.
-- Sampler: the crate dd-trace-sampling. Rate is dd-trace-sampling/src/rate_sampler.rs, Limiter is
--   rate_limiter.rs beside it, Rules and Datadog are datadog_sampler.rs with rules_sampler.rs,
--   agent_service_sampler.rs and utils.rs. An f64 is a type with the operations that the code uses
--   (Sampler/Float); where a theorem needs its order or its rounding, `IsOrdered` and `IsRounded` name
--   what IEEE doubles, infinities and NaN among them, satisfy. An instant is a number of nanoseconds,
--   given to the call. Limiter/Bucket is the abstract token bucket that the limiter is compared with.
--   A rule asks its glob without the cache, which `uncached` in Glob stands for.
-- Mapping: the crate datadog-opentelemetry-mappings. Keys is its transform/attribute_keys.rs, Names
--   transform/otel_util.rs and Databases the table in it, Span the view of a span that both the
--   sampler and the conversion ask, Value the values of attributes; Datadog, Errors and Transform are
--   transform/mod.rs. The semantic conventions are data of another crate: a function from their
--   names to their texts. So are the printing of numbers and the hash.
-- Tracer: what joins the parts in datadog-opentelemetry. ShouldSample is sampler.rs, Processor the
--   callbacks on_start and on_end of span_processor.rs, Propagator and Context are
--   text_map_propagator.rs, TraceId is trace_id.rs. An OpenTelemetry context is a record of what the
--   code reads from it; what it writes is an interface with laws.
-- Exporter: datadog-opentelemetry/src/span_exporter.rs, from the batch to the worker's loop, with the
--   tracker of extra services of dd-trace/src/configuration/configuration.rs (Services). Every method
--   takes the lock once, so a step of Worker is what one thread does between two releases of it, and
--   a run is any sequence of such steps; a wait ends when a step says so. What the worker hands to
--   the trace exporter, another crate, is recorded in the order of the calls.
-- Numeral: what the code uses of Rust's formatting and parsing of numbers, with explicit bounds.
-- Prelude: Boolean tests, lists, integers, texts as bytes, hash maps as association lists,
--   whose order is the order of iteration.
-- Examples: the theorems at concrete inputs, and small runs.
--
-- Not modelled: debug output, locks and reserved capacity leave no trace in the model. Configuration,
-- remote configuration, telemetry, the waiting for the end of a shutdown and the construction of the
-- tracer out of its parts are not modelled.
pub mod Prelude
pub mod Numeral
pub mod Decision
pub mod Glob
pub mod Registry
pub mod Propagation
pub mod Sampler
pub mod Mapping
pub mod Tracer
pub mod Examples
pub mod Exporter
