-- ===== src/Base/Table.antt =====
-- A vocabulary: the numbers of a protobuf enumeration with the names that the edge uses, both ways.
use dop_api.Base.{
  ◌⊎◌, ◌∙◌, ap, sym, refl, inr, inl, Bool-cases, is_empty, ℕ, String, Bool, true, false, List, [],
  ◌∷◌, not, ◌&&◌, ◌||◌, ◌==◌, nat_eq, string_eq, is_in, ◌≡◌, arith, eq_iff, eq_refl, if◌then◌else◌,
}

abbrev pub Table : Type 0
Table = List (ℕ × String)

-- `table.get(value, "")`.
abbrev pub name_of : Table → ℕ → String
name_of [] n = ""
name_of ((m, s) ∷ t) n = if m == n then s else name_of t n

-- `table.get(value, default)`.
abbrev pub name_or : String → Table → ℕ → String
name_or default [] n = default
name_or default ((m, s) ∷ t) n = if m == n then s else name_or default t n

-- `{name: value for value, name in table.items()}.get(name, 0)`.
abbrev pub value_of : Table → String → ℕ
value_of [] s = 0
value_of ((m, r) ∷ t) s = if r == s then m else value_of t s

abbrev pub names : Table → List String
names [] = []
names ((m, s) ∷ t) = s ∷ names t

abbrev pub knows : Table → ℕ → Bool
knows [] n = false
knows ((m, s) ∷ t) n = m == n || knows t n

-- A number of a table, and else a number that stands for it.
abbrev pub known_or : ℕ → Table → ℕ → ℕ
known_or other t n = if knows t n then n else other

-- No name and no number stands twice.
abbrev pub is_unique : Table → Bool
is_unique [] = true
is_unique ((m, s) ∷ t) = not (is_in s (names t)) && not (knows t m) && is_unique t

pub name_of-is_in : (t : Table) (n : ℕ) → knows t n ≡ true → is_in (name_of t n) (names t) ≡ true
name_of-is_in [] n h = h
name_of-is_in ((m, s) ∷ t) n h = ground (arith, name_of-is_in t n, eq_refl s)

value_of-knows : (t : Table) (s : String) → is_in s (names t) ≡ true → knows t (value_of t s) ≡ true
value_of-knows [] s h = h
value_of-knows ((m, r) ∷ t) s h = ground (arith, value_of-knows t s, eq_iff r s, eq_iff s r)

pub value_of-name_of :
    (t : Table) (n : ℕ) → is_unique t ≡ true → knows t n ≡ true → value_of t (name_of t n) ≡ n
value_of-name_of [] n u h = cc
value_of-name_of ((m, s) ∷ t) n u h =
    ground (arith, value_of-name_of t n, name_of-is_in t n, eq_iff s (name_of t n), eq_refl s)

pub name_of-value_of :
    (t : Table) (s : String)
    → is_unique t ≡ true
    → is_in s (names t) ≡ true
    → name_of t (value_of t s) ≡ s
name_of-value_of [] s u h = cc
name_of-value_of ((m, r) ∷ t) s u h =
    ground (arith, name_of-value_of t s, value_of-knows t s, eq_iff r s, eq_iff s r)

name_of-unknown : (t : Table) (n : ℕ) → knows t n ≡ false → name_of t n ≡ ""
name_of-unknown [] n h = refl
name_of-unknown ((m, s) ∷ t) n h = ground (arith, name_of-unknown t n)

pub value_of-unknown : (t : Table) (s : String) → is_in s (names t) ≡ false → value_of t s ≡ 0
value_of-unknown [] s h = refl
value_of-unknown ((m, r) ∷ t) s h = ground (arith, value_of-unknown t s, eq_iff r s, eq_iff s r)

empty_beq : (s : String) → is_empty s ≡ false → ("" == s) ≡ false
empty_beq s h = elim (Bool-cases ("" == s)) [
  | inl same ↦ absurd (ground (arith, ap is_empty ((eq_iff "" s).0 same)))
  | inr other ↦ other
]

name_or-known :
    (default : String) (t : Table) (n : ℕ) → knows t n ≡ true → name_or default t n ≡ name_of t n
name_or-known default [] n h = cc
name_or-known default ((m, s) ∷ t) n h = ground (arith, name_or-known default t n)

name_or-unknown :
    (default : String) (t : Table) (n : ℕ) → knows t n ≡ false → name_or default t n ≡ default
name_or-unknown default [] n h = refl
name_or-unknown default ((m, s) ∷ t) n h = ground (arith, name_or-unknown default t n)

-- A number that is read as a name, or as the default, and written again.
pub value_of-name_or :
    (default : String) (t : Table) (n : ℕ)
    → is_unique t ≡ true
    → value_of t (name_or default t n) ≡ known_or (value_of t default) t n
value_of-name_or default t n u = elim (Bool-cases (knows t n)) [
  | inl known ↦ ground (arith, name_or-known default t n known, value_of-name_of t n u known)
  | inr unknown ↦ ground (arith, name_or-unknown default t n unknown)
]

-- A default that is a name of the table makes every name one.
pub name_or-is_in :
    (default : String) (t : Table) (n : ℕ)
    → is_in default (names t) ≡ true
    → is_in (name_or default t n) (names t) ≡ true
name_or-is_in default t n named = elim (Bool-cases (knows t n)) [
  | inl known ↦ ground (arith, name_or-known default t n known, name_of-is_in t n known)
  | inr unknown ↦ ground (arith, name_or-unknown default t n unknown)
]

-- A test on the name is the test on the number.
pub name_of-beq :
    (t : Table) (n : ℕ) (s : String)
    → is_unique t ≡ true
    → is_in s (names t) ≡ true
    → is_empty s ≡ false
    → (name_of t n == s) ≡ (n == value_of t s)
name_of-beq t n s u i e = elim (Bool-cases (knows t n)) [
  | inl known ↦ ground (
    arith,
    value_of-name_of t n u known,
    name_of-value_of t s u i,
    eq_iff (name_of t n) s,
    eq_refl s,
  )
  | inr unknown ↦
      let differs : (n == value_of t s) ≡ false = ground (arith, value_of-knows t s i) in
      ap (λ x. x == s) (name_of-unknown t n unknown) ∙ empty_beq s e ∙ sym differs
]

-- A number that is read as a name and written again.
pub value_of-back :
    (t : Table) (n : ℕ)
    → is_unique t ≡ true
    → is_in "" (names t) ≡ false
    → value_of t (name_of t n) ≡ known_or 0 t n
value_of-back t n u nameless = elim (Bool-cases (knows t n)) [
  | inl known ↦ ground (arith, value_of-name_of t n u known)
  | inr unknown ↦
      ap (value_of t) (name_of-unknown t n unknown)
      ∙ value_of-unknown t "" nameless
      ∙ ap (λ b. if b then n else 0) (sym unknown)
]

pub unknown_name :
    (t : Table) (n : ℕ)
    → is_in "" (names t) ≡ false
    → is_in (name_of t n) (names t) ≡ true
    → knows t n ≡ true
unknown_name t n nameless named = elim (Bool-cases (knows t n)) [
  | inl known ↦ known
  | inr unknown ↦
      absurd
        (ground (arith, nameless, named, ap (λ s. is_in s (names t)) (name_of-unknown t n unknown)))
]

-- Writing the number that stands for an unknown one changes nothing more.
pub known_or_twice :
    (other : ℕ) (t : Table) (n : ℕ)
    → (knows t other ≡ true) ⊎ (other ≡ 0)
    → known_or 0 t (known_or other t n) ≡ known_or other t n
known_or_twice other t n (inl known) = ground arith
known_or_twice other t n (inr zero) = elim (Bool-cases (knows t n)) [
  | inl known ↦ ground arith
  | inr unknown ↦ ground arith
]
