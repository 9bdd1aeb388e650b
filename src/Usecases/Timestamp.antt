-- ===== src/Usecases/Timestamp.antt =====
-- app/usecases/secondfactor.py and identity.py: `_ts`, an optional date of the wire. How a date is
-- written is a parameter, the protobuf library's conversion with `isoformat`.
use dop_api.Base.{
  ℕ, String, Bool, false, Option, none, some, ◌&&◌, ◌==◌, nat_eq, string_eq, ◌<>◌, if◌then◌else◌,
}
use dop_api.Base.Int.{ℤ, pos, negsuc}

pub record Timestamp : Type 0 where
  pub seconds : ℤ
  pub nanos : ℕ

abbrev is_zero : ℤ → Bool
is_zero (pos n) = n == 0
is_zero (negsuc n) = false

abbrev pub is_unset : Timestamp → Bool
is_unset v = is_zero v.seconds && v.nanos == 0

-- `_ts`.
abbrev pub ts : (Timestamp → String) → Timestamp → Option String
ts isoformat v = if is_unset v then none else some (isoformat v <> "Z")
