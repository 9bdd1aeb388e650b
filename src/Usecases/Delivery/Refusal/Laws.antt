-- ===== src/Usecases/Delivery/Refusal/Laws.antt =====
-- A refusal written as the core writes it is taken apart into what it was made of.
use dop_api.Base.{
  ◌∙◌, ap, refl, ◌≡◌, String, Bool, true, false, some, List, [], ◌∷◌, not, ◌&&◌, nat_eq, string_eq,
  all, is_empty, or_else, strip, join, ◌<>◌, has_char, arith, lstrip, rstrip, is_space,
}
use Prim.Native.Char.{Char, code}
use Prim.Native.String
use text.Mathlib.TextLemmas.{cons-append, nil-append}
use mathlib.Core.Path.{subst}
use dop_api.Usecases.Delivery.Refusal.{
  partition, split_two, split_after, items_of, refusal_parts, parts_of, refusal,
}

-- It begins with no space, and is not empty.
abbrev pub starts_bare : String → Bool
starts_bare String.[] = false
starts_bare (String.◌∷◌ c s) = not (is_space (code c))

-- It ends with no space, and is not empty.
abbrev pub ends_bare : String → Bool
ends_bare String.[] = false
ends_bare (String.◌∷◌ c String.[]) = not (is_space (code c))
ends_bare (String.◌∷◌ c (String.◌∷◌ d s)) = ends_bare (String.◌∷◌ d s)

lstrip-bare : (s : String) → starts_bare s ≡ true → lstrip s ≡ s
lstrip-bare String.[] h = refl
lstrip-bare (String.◌∷◌ c s) h = ground arith

rstrip-bare : (s : String) → ends_bare s ≡ true → rstrip s ≡ s
rstrip-bare String.[] h = refl
rstrip-bare (String.◌∷◌ c String.[]) h = ground arith
rstrip-bare (String.◌∷◌ c (String.◌∷◌ d s)) h = ground (arith, rstrip-bare (String.◌∷◌ d s) h)

strip-bare : (s : String) → starts_bare s ≡ true → ends_bare s ≡ true → strip s ≡ s
strip-bare s h k = ap rstrip (lstrip-bare s h) ∙ rstrip-bare s k

starts_bare-append : (s t : String) → starts_bare s ≡ true → starts_bare (s <> t) ≡ true
starts_bare-append String.[] t h = ground arith
starts_bare-append (String.◌∷◌ c s) t h = rw cons-append h

ends_bare-cons : (c : Char) (t : String) → ends_bare t ≡ true → ends_bare (String.◌∷◌ c t) ≡ true
ends_bare-cons c String.[] h = ground arith
ends_bare-cons c (String.◌∷◌ d t) h = h

ends_bare-append : (s t : String) → ends_bare t ≡ true → ends_bare (s <> t) ≡ true
ends_bare-append String.[] t h = rw nil-append h
ends_bare-append (String.◌∷◌ c s) t h =
    rw cons-append (ends_bare-cons c (s <> t) (ends_bare-append s t h))

partition-append :
    (r t : String) → has_char 58 r ≡ false → partition 58 32 (r <> (": " <> t)) ≡ some (r, t)
partition-append String.[] t h = rw (nil-append, cons-append, cons-append, nil-append) refl
partition-append (String.◌∷◌ c String.[]) t h =
    rw (cons-append, nil-append, cons-append, cons-append, nil-append) (ground arith)
partition-append (String.◌∷◌ c (String.◌∷◌ d s)) t h =
    let rest : partition 58 32 (String.◌∷◌ d (String.◌++◌ s (": " <> t)))
        ≡ some (String.◌∷◌ d s, t) =
      subst (λ k. partition 58 32 k ≡ some (String.◌∷◌ d s, t)) (cons-append d s (": " <> t))
        (partition-append (String.◌∷◌ d s) t (ground arith)) in
    rw (cons-append, cons-append) (ground (arith, rest))

split_after-whole :
    (c : Char) (s : String)
    → has_char 59 (String.◌∷◌ c s) ≡ false
    → split_after 59 32 c s ≡ String.◌∷◌ c s ∷ []
split_after-whole c String.[] h = refl
split_after-whole c (String.◌∷◌ d s) h = ground (arith, split_after-whole d s)

split_after-append :
    (c : Char) (s t : String)
    → has_char 59 (String.◌∷◌ c s) ≡ false
    → split_after 59 32 c (s <> ("; " <> t)) ≡ String.◌∷◌ c s ∷ split_two 59 32 t
split_after-append c String.[] t h =
    rw (nil-append, cons-append, cons-append, nil-append) (ground arith)
split_after-append c (String.◌∷◌ d s) t h =
    rw cons-append (rw (split_after-append d s t (ground arith)) (ground arith))

-- An item, as the core may list it.
abbrev pub is_item : String → Bool
is_item s = starts_bare s && ends_bare s && not (has_char 59 s)

-- A reason, as the core may give it.
abbrev pub is_reason : String → Bool
is_reason s = starts_bare s && ends_bare s && not (has_char 58 s)

item-clean : (i : String) → is_item i ≡ true → has_char 59 i ≡ false
item-clean i h = ground arith

item-first : (i : String) → is_item i ≡ true → starts_bare i ≡ true
item-first i h = ground arith

split_two-item :
    (i : String) → starts_bare i ≡ true → has_char 59 i ≡ false → split_two 59 32 i ≡ i ∷ []
split_two-item String.[] h clean = absurd (ground arith)
split_two-item (String.◌∷◌ c s) h clean = split_after-whole c s clean

split_two-append :
    (i t : String)
    → starts_bare i ≡ true
    → has_char 59 i ≡ false
    → split_two 59 32 (i <> ("; " <> t)) ≡ i ∷ split_two 59 32 t
split_two-append String.[] t h clean = absurd (ground arith)
split_two-append (String.◌∷◌ c s) t h clean = rw cons-append (split_after-append c s t clean)

split_two-join :
    (i : String) (is : List String)
    → all is_item (i ∷ is) ≡ true
    → split_two 59 32 (join "; " (i ∷ is)) ≡ i ∷ is
split_two-join i [] h = split_two-item i (item-first i (ground arith)) (item-clean i (ground arith))
split_two-join i (j ∷ is) h =
    split_two-append i (join "; " (j ∷ is)) (item-first i (ground arith))
      (item-clean i (ground arith))
    ∙ ap (λ rest. i ∷ rest) (split_two-join j is (ground arith))

ends_bare-join :
    (i : String) (is : List String)
    → all is_item (i ∷ is) ≡ true
    → ends_bare (join "; " (i ∷ is)) ≡ true
ends_bare-join i [] h = ground arith
ends_bare-join i (j ∷ is) h =
    ends_bare-append i ("; " <> join "; " (j ∷ is))
      (ends_bare-append "; " (join "; " (j ∷ is)) (ends_bare-join j is (ground arith)))

is_empty-bare : (s : String) → starts_bare s ≡ true → is_empty s ≡ false
is_empty-bare String.[] h = ground arith
is_empty-bare (String.◌∷◌ c s) h = refl

items_of-items : (is : List String) → all is_item is ≡ true → items_of is ≡ is
items_of-items [] h = refl
items_of-items (i ∷ is) h =
    let same = strip-bare i (ground arith) (ground arith) in
    ground (arith, items_of-items is, same, is_empty-bare i, ap is_empty same)

refusal-bare :
    (s : String) → starts_bare s ≡ true → ends_bare s ≡ true → refusal (some s) ≡ refusal_parts s
unfolding refusal
refusal-bare s h k =
    let filled : or_else s "" ≡ s = ground (arith, is_empty-bare s h) in
    ap refusal_parts (ap strip filled ∙ strip-bare s h k)

-- The core's sentence "reason: item; item" gives back its reason and its items, if the reason
-- holds no colon, no item a semicolon, and none of them is empty or begins or ends with a space.
pub refusal-join :
    (reason item : String) (items : List String)
    → is_reason reason ≡ true
    → all is_item (item ∷ items) ≡ true
    → refusal (some (reason <> (": " <> join "; " (item ∷ items))))
      ≡ record { reason = reason; missing = item ∷ items }
refusal-join reason item items r h =
    let tail = join "; " (item ∷ items) in
    let whole =
      refusal-bare (reason <> (": " <> tail))
        (starts_bare-append reason (": " <> tail) (ground arith))
        (ends_bare-append reason (": " <> tail)
          (ends_bare-append ": " tail (ends_bare-join item items h))) in
    let parts = partition-append reason tail (ground arith) in
    let listed = ap items_of (split_two-join item items h) ∙ items_of-items (item ∷ items) h in
    let named = strip-bare reason (ground arith) (ground arith) in
    whole ∙ ap (parts_of (reason <> (": " <> tail))) parts ∙ cc (named, listed)
