-- ===== src/Tests/Encoding.antt =====
-- An encoding of text that is one to one and has no dot: each character behind a marker, a dot as
-- a comma behind another one.
use dop_api.Base.{
  zero, ◌∷◌, ◌+◌, suc, some, [], ℕ, Option, List, ◌∙◌, ap, sym, refl, ◌≡◌, String, false, nat_eq,
  string_eq, char_is, has_char, arith, if◌then◌else◌,
}
use text.Mathlib.TextEquality.{Char-path}

abbrev pub encode : String → String
encode String.[] = ""
encode (String.◌∷◌ c s) =
    let rest = encode s in
    if char_is 46 c
    then String.◌∷◌ "d" (String.◌∷◌ "," rest)
    else String.◌∷◌ "x" (String.◌∷◌ c rest)

abbrev decode : String → String
decode String.[] = ""
decode (String.◌∷◌ m String.[]) = ""
decode (String.◌∷◌ m (String.◌∷◌ c s)) =
    let rest = decode s in if char_is 100 m then String.◌∷◌ "." rest else String.◌∷◌ c rest

decode-encode : (s : String) → decode (encode s) ≡ s
decode-encode String.[] = refl
decode-encode (String.◌∷◌ c s) = ground (arith, decode-encode s, Char-path c ".")

pub encode-injective : (s t : String) → encode s ≡ encode t → s ≡ t
encode-injective s t same = sym (decode-encode s) ∙ ap decode same ∙ decode-encode t

pub encode-dotless : (s : String) → has_char 46 (encode s) ≡ false
encode-dotless String.[] = refl
encode-dotless (String.◌∷◌ c s) = ground (arith, encode-dotless s)

-- An encoding of bytes that is read back: each number as so many strokes and a comma.
abbrev strokes : ℕ → String → String
strokes zero rest = String.◌∷◌ "," rest
strokes (suc n) rest = String.◌∷◌ "1" (strokes n rest)

abbrev pub write_bytes : List ℕ → String
write_bytes [] = ""
write_bytes (b ∷ bs) = strokes b (write_bytes bs)

abbrev read_from : ℕ → String → List ℕ
read_from n String.[] = []
read_from n (String.◌∷◌ c s) =
    let next = n ∷ read_from 0 s in
    let more = read_from (suc n) s in if char_is 44 c then next else more

read_from-strokes :
    (n b : ℕ) (rest : String) → read_from n (strokes b rest) ≡ (n + b) ∷ read_from 0 rest
read_from-strokes n zero rest = ground arith
read_from-strokes n (suc b) rest = ground (arith, read_from-strokes (suc n) b rest)

abbrev pub read_bytes : String → Option (List ℕ)
read_bytes s = some (read_from 0 s)

read_from-write_bytes : (bytes : List ℕ) → read_from 0 (write_bytes bytes) ≡ bytes
read_from-write_bytes [] = refl
read_from-write_bytes (b ∷ bs) =
    ground (arith, read_from-strokes 0 b (write_bytes bs), read_from-write_bytes bs)

pub read_bytes-write_bytes : (bytes : List ℕ) → read_bytes (write_bytes bytes) ≡ some bytes
read_bytes-write_bytes bytes = ap some (read_from-write_bytes bytes)
