-- ===== src/Site/Token.antt =====
-- website/js/auth.js, lines 143-165: when an access token expires.
use veritas_vpn.Base.{
  ℕ, ◌+◌, Bool, false, not, ◌&&◌, Option, none, some, [], ◌∷◌, map, Text, ltb, ◌==◌, if◌then◌else◌,
}

-- `token.split('.')[1]`.
before_dot : Text → Text
before_dot [] = []
before_dot (c ∷ s) = let rest = before_dot s in if c == b'.' then [] else c ∷ rest

second_segment : Text → Option Text
unfolding before_dot
second_segment [] = none
second_segment (c ∷ s) =
    let rest = second_segment s in if c == b'.' then some (before_dot s) else rest

-- `.replace(/-/g, '+').replace(/_/g, '/')`.
base64_code : ℕ → ℕ
base64_code c = if c == b'-' then b'+' else if c == b'_' then b'/' else c

-- `payload_exp` is the field `exp` of `JSON.parse(atob(base64))`, and `none` where that throws.
module _ (payload_exp : Text → Option ℕ) where
  unfoldable pub parse_jwt : Text → Option ℕ
  unfolding second_segment base64_code
  parse_jwt token = elim (second_segment token) [
    | none ↦ none
    | some part ↦ payload_exp (map base64_code part)
  ]

  -- `payload && payload.exp` and then `payload.exp - now < 60`.
  unfoldable pub expires_soon : ℕ → Text → Bool
  unfolding parse_jwt
  expires_soon now token = elim (parse_jwt token) [
    | none ↦ false
    | some exp ↦ not (exp == 0) && ltb exp (now + 60)
  ]
