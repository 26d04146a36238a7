-- ===== src/Base/Decimal.antt =====
-- Numbers as JavaScript writes them: whole, and with one digit after the point.
use veritas_vpn.Base.{
  ℕ, zero, suc, ◌+◌, ◌-◌, ◌*◌, ◌/◌, ◌%◌, ◌≤◌, ◌≡◌, refl, ap, ◌∙◌, [], ◌∷◌, ◌++◌, Text, ltb,
  if◌then◌else◌, arith,
}

-- The digits of a number, with as much fuel as the number or more.
digits : ℕ → ℕ → Text
digits zero n = (48 + n) ∷ []
digits (suc f) n =
    let rest = digits f (n / 10) in if ltb n 10 then (48 + n) ∷ [] else rest ++ ((48 + n % 10) ∷ [])

unfoldable pub decimal : ℕ → Text
unfolding digits
decimal n = digits n n

pub read_from : ℕ → Text → ℕ
read_from acc [] = acc
read_from acc (c ∷ s) = read_from (acc * 10 + (c - 48)) s

read_from-append : (acc : ℕ) (s t : Text) → read_from acc (s ++ t) ≡ read_from (read_from acc s) t
unfolding read_from
read_from-append acc [] t = refl
read_from-append acc (c ∷ s) t = read_from-append (acc * 10 + (c - 48)) s t

read_from-digits : (f n : ℕ) → n ≤ f → read_from 0 (digits f n) ≡ n
unfolding read_from digits
read_from-digits zero n h = ground arith
read_from-digits (suc f) n h = ground (
  arith,
  read_from-append 0 (digits f (n / 10)) ((48 + n % 10) ∷ []),
  read_from-digits f (n / 10),
)

-- A text of digits is read back as the number.
pub read_from-decimal : (n : ℕ) → read_from 0 (decimal n) ≡ n
unfolding decimal
read_from-decimal n = read_from-digits n n (omega arith)

-- `v.toFixed(1)` of a number that is not negative, in tenths.
unfoldable pub point : ℕ → Text
unfolding decimal
point n = decimal (n / 10) ++ (b'.' ∷ (48 + n % 10) ∷ [])

read_from-point : (n : ℕ) → read_from 0 (point n) ≡ n / 10 * 100 + n % 10
unfolding point read_from
read_from-point n =
    read_from-append 0 (decimal (n / 10)) (b'.' ∷ (48 + n % 10) ∷ [])
    ∙ ap (λ (k : ℕ). read_from k (b'.' ∷ (48 + n % 10) ∷ [])) (read_from-decimal (n / 10))
    ∙ omega arith

-- Two numbers that are written alike are the same.
pub point_injective : (m n : ℕ) → point m ≡ point n → m ≡ n
point_injective m n e = omega (arith, read_from-point m, read_from-point n, ap (read_from 0) e)
