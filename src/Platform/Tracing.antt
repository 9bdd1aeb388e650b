-- ===== src/Platform/Tracing.antt =====
-- app/platform/tracing.py: what the settings make of the traces. A ratio is in millionths; the
-- exporters and the provider are the library's, and stand as what they are made from.
pub mod Laws
use dop_api.Base.{
  ℕ, String, Bool, false, Option, none, some, ◌==◌, ◌||◌, ◌&&◌, not, nat_eq, string_eq, is_empty,
  leb, if◌then◌else◌,
}
use dop_api.Base.Int.{ℤ, pos, negsuc}
use dop_api.Platform.Errors.{Error, Result, done, raised}

-- The settings that `setup` reads.
pub record TraceSettings : Type 0 where
  pub trace_backend : String
  pub otel_exporter_otlp_endpoint : String
  pub trace_gcp_project : String
  pub trace_sample_ratio : ℤ

pub data Exporter : Type 0 where
  otlp : String → Exporter
  cloud_trace : Option String → Exporter

-- `_provider`, where there is one.
pub record Provider : Type 0 where
  pub ratio : ℤ
  pub exporter : Exporter

abbrev pub whole : ℕ
whole = 1000000

abbrev pub is_ratio : ℤ → Bool
is_ratio (pos n) = not (n == 0) && leb n whole
is_ratio (negsuc n) = false

-- A ratio out of range is the whole.
abbrev pub sampled : ℤ → ℤ
sampled ratio = if is_ratio ratio then ratio else pos whole

abbrev pub providing : TraceSettings → Exporter → Result (Option Provider)
providing t exporter =
    done (some (record { ratio = sampled t.trace_sample_ratio; exporter = exporter }))

-- `setup`: the provider that it leaves, or the error of the start.
unfoldable pub setup : TraceSettings → Result (Option Provider)
setup t =
    let backend = t.trace_backend in
    let project = if is_empty t.trace_gcp_project then none else some t.trace_gcp_project in
    if is_empty backend || (backend == "none")
    then done none
    else if backend == "otlp"
    then (if is_empty t.otel_exporter_otlp_endpoint
        then raised (Error.failure "TRACE_BACKEND=otlp needs OTEL_EXPORTER_OTLP_ENDPOINT")
        else providing t (otlp t.otel_exporter_otlp_endpoint))
    else if backend == "gcp"
    then providing t (cloud_trace project)
    else raised (Error.failure "unknown TRACE_BACKEND (use none, otlp or gcp)")
