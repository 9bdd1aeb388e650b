-- ===== src/Base/Text.antt =====
-- Python's `str` as the native text: the operations that the program calls.
use Prim.Native.Nat.{ℕ, zero, suc}
use Prim.Native.Char.{Char, code}
use Prim.Native.String
use Prim.Native.String.{String}
use mathlib.Core.Path.{◌≡◌, refl}
use mathlib.Core.Bool.{Bool, true, false, ◌||◌, ◌&&◌}
use mathlib.Core.List.{List, [], ◌∷◌}
use mathlib.Core.Option.{Option, none, some}
use text.Mathlib.Text.{◌==◌ as str_eq}
use text.Mathlib.TextEquality.{eq_iff}
use dop_api.Base.Tests.{Comparable, ◌==◌, nat_eq, leb, if◌then◌else◌}

instance abbrev pub string_eq : Comparable String
string_eq = record { same_iff = eq_iff; same = str_eq }

-- `s + t`.
infixl 66 ◌<>◌
abbrev pub ◌<>◌ : String → String → String
s <> t = String.◌++◌ s t

-- `not s`: the empty text is false.
abbrev pub is_empty : String → Bool
is_empty String.[] = true
is_empty (String.◌∷◌ c s) = false

-- `s or t`.
abbrev pub or_else : String → String → String
or_else s t = if is_empty s then t else s

-- `s or t` where `s` may be `None`.
abbrev pub or_text : Option String → String → String
or_text none t = t
or_text (some s) t = or_else s t

-- `len(s)`, in code points.
abbrev pub text_length : String → ℕ
text_length String.[] = 0
text_length (String.◌∷◌ c s) = suc (text_length s)

-- `s in (…)`.
abbrev pub is_in : String → List String → Bool
is_in s [] = false
is_in s (t ∷ ts) = s == t || is_in s ts

-- A `dict` keyed by text: the pairs in insertion order.
abbrev pub Dict {ℓ} : Type ℓ → Type ℓ
Dict V = List (String × V)

-- `d.get(k)`.
abbrev pub get {ℓ} : {V : Type ℓ} → Dict V → String → Option V
get [] k = none
get ((j, v) ∷ d) k = if j == k then some v else get d k

-- `d.get(k, v)`.
abbrev pub get_default {ℓ} : {V : Type ℓ} → Dict V → String → V → V
get_default d k v = elim (get d k) [ none ↦ v | some w ↦ w ]

-- `c == "…"` on one character, by its code point.
abbrev pub char_is : ℕ → Char → Bool
char_is n c = code c == n

-- `sep in s`, for a separator of one character.
abbrev pub has_char : ℕ → String → Bool
has_char n String.[] = false
has_char n (String.◌∷◌ c s) = char_is n c || has_char n s

-- Python's white space.
abbrev pub is_space : ℕ → Bool
is_space n =
    (leb 9 n && leb n 13)
    || (leb 28 n && leb n 32)
    || n == 133
    || n == 160
    || n == 5760
    || (leb 8192 n && leb n 8202)
    || n == 8232
    || n == 8233
    || n == 8239
    || n == 8287
    || n == 12288

-- `s.lstrip()`.
abbrev pub lstrip : String → String
lstrip String.[] = ""
lstrip (String.◌∷◌ c s) = let rest = lstrip s in if is_space (code c) then rest else String.◌∷◌ c s

-- `s.rstrip()`: a character stays if it is no space, or if something after it stays.
abbrev pub rstrip : String → String
rstrip String.[] = ""
rstrip (String.◌∷◌ c s) =
    let rest = rstrip s in if is_space (code c) && is_empty rest then "" else String.◌∷◌ c rest

-- `s.strip()`.
abbrev pub strip : String → String
strip s = rstrip (lstrip s)

-- The rest of the second text behind the first, if it begins so.
abbrev pub after_prefix : String → String → Option String
after_prefix String.[] s = some s
after_prefix (String.◌∷◌ c p) String.[] = none
after_prefix (String.◌∷◌ c p) (String.◌∷◌ d s) =
    let rest = after_prefix p s in if code c == code d then rest else none

-- `s.removeprefix(p)`, with the prefix first.
abbrev pub remove_prefix : String → String → String
remove_prefix p s = elim (after_prefix p s) [ none ↦ s | some rest ↦ rest ]

-- `s.endswith(p)`, with the suffix first.
abbrev pub ends_with : String → String → Bool
ends_with p String.[] = is_empty p
ends_with p (String.◌∷◌ c s) = str_eq p (String.◌∷◌ c s) || ends_with p s

-- `s[:n]`.
abbrev pub take_chars : ℕ → String → String
take_chars zero s = ""
take_chars (suc n) String.[] = ""
take_chars (suc n) (String.◌∷◌ c s) = String.◌∷◌ c (take_chars n s)

-- `sep.join(parts)`.
abbrev pub join : String → List String → String
join sep [] = ""
join sep (s ∷ []) = s
join sep (s ∷ t ∷ ts) = String.◌++◌ s (String.◌++◌ sep (join sep (t ∷ ts)))

abbrev push_head : Char → List String → List String
push_head c [] = String.◌∷◌ c "" ∷ []
push_head c (s ∷ ss) = String.◌∷◌ c s ∷ ss

-- `s.split(sep)`, for a separator of one character.
abbrev pub split_on : ℕ → String → List String
split_on n String.[] = "" ∷ []
split_on n (String.◌∷◌ c s) =
    let rest = split_on n s in if char_is n c then "" ∷ rest else push_head c rest

pub is_empty-eq : (s : String) → is_empty s ≡ true → s ≡ ""
is_empty-eq String.[] h = refl
is_empty-eq (String.◌∷◌ c s) h = cc
