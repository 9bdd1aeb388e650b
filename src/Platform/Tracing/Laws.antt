-- ===== src/Platform/Tracing/Laws.antt =====
-- A start that exports nothing was asked for.
use dop_api.Base.{
  not, ◌≡◌, true, Bool, Option, none, some, ◌||◌, ◌&&◌, ◌==◌, nat_eq, string_eq, is_empty, arith,
}
use dop_api.Base.Int.{ℤ, pos, negsuc}
use dop_api.Platform.Errors.{Result, done, raised}
use dop_api.Platform.Tracing.{TraceSettings, Provider, is_ratio, sampled, setup}

sampled-is_ratio : (r : ℤ) → is_ratio (sampled r) ≡ true
sampled-is_ratio (pos n) = ground arith
sampled-is_ratio (negsuc n) = ground arith

abbrev pub is_off : TraceSettings → Bool
is_off t = is_empty t.trace_backend || (t.trace_backend == "none")

-- What a start leaves: no provider exactly if no backend is named, and with a provider a ratio above
-- none and not above the whole.
abbrev pub is_configured : Bool → Result (Option Provider) → Bool
is_configured off (done none) = off
is_configured off (done (some p)) = not off && is_ratio p.ratio
is_configured off (raised e) = not off

-- A typing error in the settings of the traces never means that nothing is exported: the process
-- starts without a provider only if the backend is empty or "none", and otherwise with one whose
-- ratio is above 0 and at most 1, or not at all.
pub setup-is_configured : (t : TraceSettings) → is_configured (is_off t) (setup t) ≡ true
unfolding setup
setup-is_configured t = ground (arith, sampled-is_ratio t.trace_sample_ratio)
