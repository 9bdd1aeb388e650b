-- ===== src/Usecases/Delivery/Refusal.antt =====
-- app/usecases/delivery.py: the core's refusal of a merge, taken apart.
pub mod Laws
use dop_api.Base.{
  ℕ, String, Option, none, some, List, [], ◌∷◌, ◌&&◌, nat_eq, string_eq, is_empty, or_text, strip,
  char_is, if◌then◌else◌,
}
use Prim.Native.Char.{Char}
use dop_api.Usecases.Delivery.Models.{MergeRefusal}

-- `s.partition(sep)`, for a separator of the two characters `a`, `b`: `none` if it does not occur.
abbrev pub partition : ℕ → ℕ → String → Option (String × String)
partition a b String.[] = none
partition a b (String.◌∷◌ c String.[]) = none
partition a b (String.◌∷◌ c (String.◌∷◌ d s)) =
    let rest = partition a b (String.◌∷◌ d s) in
    if char_is a c && char_is b d
    then some ("", s)
    else elim rest [ none ↦ none | some (before, after) ↦ some (String.◌∷◌ c before, after) ]

abbrev push_first : Char → List String → List String
push_first c [] = String.◌∷◌ c "" ∷ []
push_first c (s ∷ ss) = String.◌∷◌ c s ∷ ss

-- `s.split(sep)`, for a separator of two characters that differ.
abbrev mutual
  pub split_two : ℕ → ℕ → String → List String
  split_two a b String.[] = "" ∷ []
  split_two a b (String.◌∷◌ c s) = split_after a b c s

  -- Behind the character `c`.
  pub split_after : ℕ → ℕ → Char → String → List String
  split_after a b c String.[] = String.◌∷◌ c "" ∷ []
  split_after a b c (String.◌∷◌ d s) =
      let whole = split_two a b s in
      let rest = split_after a b d s in
      if char_is a c && char_is b d then "" ∷ whole else push_first c rest

-- `[i.strip() for i in parts if i.strip()]`.
abbrev pub items_of : List String → List String
items_of [] = []
items_of (s ∷ ss) = let rest = items_of ss in if is_empty (strip s) then rest else strip s ∷ rest

-- With the parts of the text, if it has any.
abbrev pub parts_of : String → Option (String × String) → MergeRefusal
parts_of s none = record { reason = s; missing = [] }
parts_of s (some (reason, tail)) = record {
  reason = strip reason;
  missing = items_of (split_two 59 32 tail);
}

abbrev pub refusal_parts : String → MergeRefusal
refusal_parts s = parts_of s (partition 58 32 s)

-- `_refusal(exc.details() or "")`: the first ": " parts the reason from the items, "; " the items.
pub refusal : Option String → MergeRefusal
refusal detail = refusal_parts (strip (or_text detail ""))
