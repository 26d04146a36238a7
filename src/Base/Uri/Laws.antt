-- ===== src/Base/Uri/Laws.antt =====
-- What `encodeURIComponent` makes: a text of unescaped codes and escapes, which is read back as the text.
use veritas_vpn.Base.{
  ℕ, zero, suc, ◌+◌, ◌-◌, ◌*◌, ◌/◌, ◌%◌, ◌<◌, ◌≡◌, refl, ap, ◌∙◌, Bool, true, false, ◌||◌, List, [],
  ◌∷◌, ◌++◌, Text, ltb, ◌==◌, if◌then◌else◌, Result, ok, throw, arith,
}
use veritas_vpn.Base.Uri.{
  is_unescaped, is_surrogate, utf8, hex_digit, escape, escape_code, encode_before,
  encode_uri_component,
}

-- A reader of escapes: outside of one, after its `%`, or after its first digit.
pub data Reading : Type 0 where
  plain first_digit : Reading
  second_digit : ℕ → Reading

digit_of : ℕ → ℕ
digit_of c = if ltb c 58 then c - 48 else c - 55

unfoldable pub read_bytes : Reading → Text → List ℕ
unfolding digit_of
read_bytes r [] = []
read_bytes plain (c ∷ s) = elim (c == b'%') [
  | true ↦ read_bytes first_digit s
  | false ↦ c ∷ read_bytes plain s
]
read_bytes first_digit (c ∷ s) = read_bytes (second_digit (digit_of c)) s
read_bytes (second_digit d) (c ∷ s) = (d * 16 + digit_of c) ∷ read_bytes plain s

-- The bytes that follow a first byte of several, and the bits that it has.
followers : ℕ → ℕ
followers b = if ltb b 0xe0 then 1 else if ltb b 0xf0 then 2 else 3

first_bits : ℕ → ℕ
first_bits b = if ltb b 0xe0 then b - 0xc0 else if ltb b 0xf0 then b - 0xe0 else b - 0xf0

-- A reader of UTF-8: the bytes that are still to come for a code, and the bits that are read of it.
unfoldable pub read_utf8 : ℕ → ℕ → List ℕ → Text
unfolding followers first_bits
read_utf8 n bits [] = []
read_utf8 zero bits (b ∷ bs) = elim (ltb b 0x80) [
  | true ↦ b ∷ read_utf8 zero 0 bs
  | false ↦ read_utf8 (followers b) (first_bits b) bs
]
read_utf8 (suc zero) bits (b ∷ bs) = (bits * 64 + (b - 0x80)) ∷ read_utf8 zero 0 bs
read_utf8 (suc (suc n)) bits (b ∷ bs) = read_utf8 (suc n) (bits * 64 + (b - 0x80)) bs

unfoldable pub decode : Text → Text
decode s = read_utf8 zero 0 (read_bytes plain s)

-- The codes of a text are those of Unicode.
abbrev pub IsUnicode : Text → Type 0
IsUnicode [] = Unit {0}
IsUnicode (c ∷ s) = (c < 0x110000) × IsUnicode s

-- A code of the query's value: unescaped, `%` or a digit of an escape.
abbrev pub is_value_code : ℕ → Bool
is_value_code c = is_unescaped c || c == b'%'

abbrev pub IsValue : Text → Type 0
IsValue [] = Unit {0}
IsValue (c ∷ s) = (is_value_code c ≡ true) × IsValue s

abbrev AreBytes : List ℕ → Type 0
AreBytes [] = Unit {0}
AreBytes (b ∷ bs) = (b < 256) × AreBytes bs

digit_of-hex_digit : (d : ℕ) → d < 16 → digit_of (hex_digit d) ≡ d
unfolding digit_of hex_digit
digit_of-hex_digit d h = ground arith

read_bytes-escape :
    (bs : List ℕ) (s : Text)
    → AreBytes bs
    → read_bytes plain (escape bs ++ s) ≡ bs ++ read_bytes plain s
unfolding read_bytes escape
read_bytes-escape [] s h = refl
read_bytes-escape (b ∷ bs) s h =
    ground
      (arith, digit_of-hex_digit (b / 16), digit_of-hex_digit (b % 16), read_bytes-escape bs s h.1)

utf8-AreBytes : (c : ℕ) → c < 0x110000 → AreBytes (utf8 c)
unfolding utf8
utf8-AreBytes c h = ground arith

read_bytes-unescaped :
    (c : ℕ) (s : Text)
    → is_unescaped c ≡ true
    → read_bytes plain (c ∷ s) ≡ utf8 c ++ read_bytes plain s
unfolding read_bytes utf8 is_unescaped
read_bytes-unescaped c s h = ground arith

read_bytes-escape_code :
    (c : ℕ) (s : Text)
    → c < 0x110000
    → read_bytes plain (escape_code c ++ s) ≡ utf8 c ++ read_bytes plain s
unfolding escape_code
read_bytes-escape_code c s h =
    ground (arith, read_bytes-escape (utf8 c) s (utf8-AreBytes c h), read_bytes-unescaped c s)

read_utf8-utf8 :
    (c : ℕ) (bs : List ℕ) → c < 0x110000 → read_utf8 zero 0 (utf8 c ++ bs) ≡ c ∷ read_utf8 zero 0 bs
unfolding read_utf8 utf8 followers first_bits
read_utf8-utf8 c bs h = ground arith

utf8_all : Text → List ℕ
utf8_all [] = []
utf8_all (c ∷ s) = utf8 c ++ utf8_all s

read_utf8-utf8_all : (s : Text) → IsUnicode s → read_utf8 zero 0 (utf8_all s) ≡ s
unfolding utf8_all read_utf8
read_utf8-utf8_all [] u = refl
read_utf8-utf8_all (c ∷ s) u =
    read_utf8-utf8 c (utf8_all s) u.0 ∙ ap (λ r. c ∷ r) (read_utf8-utf8_all s u.1)

-- What is read from an encoded text: its bytes.
IsRead : Text → Result Text → Type 0
IsRead s (throw message) = Unit {0}
IsRead s (ok e) = read_bytes plain e ≡ utf8_all s

encode_before-IsRead :
    (c : ℕ) (b : Bool) (s : Text) (r : Result Text)
    → c < 0x110000
    → IsRead s r
    → IsRead (c ∷ s) (encode_before c b r)
unfolding IsRead encode_before utf8_all
encode_before-IsRead c true s r u h = tt
encode_before-IsRead c false s (throw message) u h = tt
encode_before-IsRead c false s (ok e) u h = read_bytes-escape_code c e u ∙ ap (λ r. utf8 c ++ r) h

encode-IsRead : (s : Text) → IsUnicode s → IsRead s (encode_uri_component s)
unfolding encode_uri_component IsRead utf8_all read_bytes
encode-IsRead [] u = refl
encode-IsRead (c ∷ s) u =
    encode_before-IsRead c (is_surrogate c) s (encode_uri_component s) u.0 (encode-IsRead s u.1)

hex_digit-value : (d : ℕ) → d < 16 → is_value_code (hex_digit d) ≡ true
unfolding hex_digit is_unescaped
hex_digit-value d h = ground arith

escape-IsValue : (bs : List ℕ) → AreBytes bs → IsValue (escape bs)
unfolding escape
escape-IsValue [] h = h
escape-IsValue (b ∷ bs) h =
    ground (arith, hex_digit-value (b / 16), hex_digit-value (b % 16), escape-IsValue bs h.1)

append-IsValue : (s t : Text) → IsValue s → IsValue t → IsValue (s ++ t)
append-IsValue [] t h k = k
append-IsValue (c ∷ s) t h k = (h.0, append-IsValue s t h.1 k)

escape_code-IsValue : (c : ℕ) → c < 0x110000 → IsValue (escape_code c)
unfolding escape_code
escape_code-IsValue c h = ground (arith, escape-IsValue (utf8 c) (utf8-AreBytes c h))

abbrev pub has_surrogate : Text → Bool
has_surrogate [] = false
has_surrogate (c ∷ s) = is_surrogate c || has_surrogate s

-- A text is encoded as a value that is read back as the text, or it has half of a character.
unfoldable pub Carries : Text → Result Text → Type 0
Carries s (ok e) = (decode e ≡ s) × IsValue e
Carries s (throw message) = has_surrogate s ≡ true

encode_before-Carries :
    (c : ℕ) (b : Bool) (s : Text) (r : Result Text)
    → is_surrogate c ≡ b
    → IsUnicode (c ∷ s)
    → IsRead s r
    → Carries s r
    → Carries (c ∷ s) (encode_before c b r)
unfolding Carries IsRead encode_before decode utf8_all
encode_before-Carries c true s r e u d h = ground arith
encode_before-Carries c false s (throw message) e u d h = ground arith
encode_before-Carries c false s (ok t) e u d h = (
  ap (λ (bs : List ℕ). read_utf8 zero 0 bs)
        (read_bytes-escape_code c t u.0 ∙ ap (λ bs. utf8 c ++ bs) d)
      ∙ read_utf8-utf8_all (c ∷ s) u,
  append-IsValue (escape_code c) t (escape_code-IsValue c u.0) h.1,
)

pub encode-Carries : (s : Text) → IsUnicode s → Carries s (encode_uri_component s)
unfolding encode_uri_component Carries decode read_utf8 read_bytes
encode-Carries [] u = (refl, tt)
encode-Carries (c ∷ s) u =
    encode_before-Carries c (is_surrogate c) s (encode_uri_component s) refl u (encode-IsRead s u.1)
      (encode-Carries s u.1)
