-- ===== src/Platform/Logging/Calls/Laws.antt =====
-- What the line of a call shows of its arguments.
use dop_api.Base.{
  ◌≡◌, ◌⊎◌, inl, inr, String, false, some, List, [], ◌∷◌, ◌==◌, nat_eq, string_eq, All, Dict, arith,
  Bool-cases, if◌then◌else◌,
}
use dop_api.Platform.Logging.{redacted}
use dop_api.Platform.Logging.Calls.{is_masked_name, masked_params}

-- A parameter with a secret's name, of the platform's list or of the decorator's own, is shown
-- redacted, and the receiver of a method is not shown.
abbrev pub IsDiscreet : (String → String) → List String → String × String → Type 0
IsDiscreet lower extra (name, shown) =
    ((name == "self") ≡ false) × ((is_masked_name lower extra name ≡ false) ⊎ (shown ≡ redacted))

masked_params-IsDiscreet :
    (lower : String → String) (extra : List String) (arguments : Dict String)
    → All (IsDiscreet lower extra) (masked_params lower extra (some arguments))
unfolding masked_params
masked_params-IsDiscreet lower extra [] = tt
masked_params-IsDiscreet lower extra ((name, value) ∷ others) =
    let rest_of = masked_params-IsDiscreet lower extra others in
    elim (Bool-cases (name == "self")) [
      | inl receiver ↦ rw receiver rest_of
      | inr named ↦
          let discreet : IsDiscreet lower extra
              (name, if is_masked_name lower extra name then redacted else value) =
            (named, ground arith) in
          rw named (discreet, rest_of)
    ]
