-- ===== src/Base/Uri.antt =====
-- `encodeURIComponent`, and how a server reads what it makes: the escapes are bytes, and the bytes are
-- the text in UTF-8.
pub mod Laws
use veritas_vpn.Base.{
  ℕ, zero, suc, ◌+◌, ◌-◌, ◌*◌, ◌/◌, ◌%◌, ◌<◌, ◌≡◌, refl, ap, ◌∙◌, Bool, true, false, ◌&&◌, ◌||◌,
  List, [], ◌∷◌, ◌++◌, Text, text, ltb, leb, ◌==◌, if◌then◌else◌, Result, ok, throw, arith,
}

-- The codes that are not escaped: letters, digits and - _ . ! ~ * ' ( ).
unfoldable pub is_unescaped : ℕ → Bool
is_unescaped c =
    (leb b'A' c && leb c b'Z')
    || (leb b'a' c && leb c b'z')
    || (leb b'0' c && leb c b'9')
    || c == 45
    || c == 95
    || c == 46
    || c == 33
    || c == 126
    || (leb 39 c && leb c 42)

-- Half of a character outside the basic plane, on its own.
unfoldable pub is_surrogate : ℕ → Bool
is_surrogate c = leb 0xd800 c && leb c 0xdfff

unfoldable pub utf8 : ℕ → List ℕ
utf8 c =
    if ltb c 0x80
    then c ∷ []
    else if ltb c 0x800
    then (0xc0 + c / 64) ∷ (0x80 + c % 64) ∷ []
    else if ltb c 0x10000
    then (0xe0 + c / 4096) ∷ (0x80 + c / 64 % 64) ∷ (0x80 + c % 64) ∷ []
    else (0xf0 + c / 262144) ∷ (0x80 + c / 4096 % 64) ∷ (0x80 + c / 64 % 64) ∷ (0x80 + c % 64) ∷ []

hex_digit : ℕ → ℕ
hex_digit d = if ltb d 10 then 48 + d else 55 + d

escape : List ℕ → Text
unfolding hex_digit
escape [] = []
escape (b ∷ bs) = b'%' ∷ hex_digit (b / 16) ∷ hex_digit (b % 16) ∷ escape bs

escape_code : ℕ → Text
unfolding is_unescaped utf8 escape
escape_code c = if is_unescaped c then c ∷ [] else escape (utf8 c)

-- A code before what is made of the text after it.
unfoldable pub encode_before : ℕ → Bool → Result Text → Result Text
unfolding escape_code
encode_before c true rest = throw (text "URI malformed")
encode_before c false (ok t) = ok (escape_code c ++ t)
encode_before c false (throw message) = throw message

unfoldable pub encode_uri_component : Text → Result Text
unfolding is_surrogate encode_before
encode_uri_component [] = ok []
encode_uri_component (c ∷ s) = encode_before c (is_surrogate c) (encode_uri_component s)
