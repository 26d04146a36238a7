-- ===== src/Base/Fairness.antt =====
-- What fairness gives: a state that is busy comes to rest, where nothing else adds to what is left to do
-- and what is left is gone on with from time to time.
use veritas_vpn.Base.{
  ℕ, zero, suc, ◌≤◌, ◌<◌, ◌≡◌, ◌⊎◌, inl, inr, Bool, true, false, arith, Bool-cases, leb, leb→le,
  leb→gt,
}
use native.Mathlib.Nat.{le_refl}
use mathlib.Core.Path.{subst}

-- The state at each time, where `act n` is what happens at the time `n`.
abbrev pub after {ℓ} : {S : Type ℓ} → (ℕ → S → S) → ℕ → S → S
after act zero s = s
after act (suc n) s = act n (after act n s)

module _ {ℓ} {S : Type ℓ} (act : ℕ → S → S) (busy : S → Bool) (mine : ℕ → S → Bool) (s : S) where
  -- Whenever the state is busy, what it waits for happens at that time or later.
  abbrev pub IsFair : Type 0
  IsFair =
      (n : ℕ) → busy (after act n s) ≡ true → (k : ℕ) × (n ≤ k) × (mine k (after act k s) ≡ true)

  abbrev pub Rests : ℕ → Type 0
  Rests n = (m : ℕ) × (n ≤ m) × (busy (after act m s) ≡ false)

  module _ (left : S → ℕ) (keeps : (n : ℕ) (t : S) → busy t ≡ true → left (act n t) ≤ left t)
      (falls : (n : ℕ) (t : S) → busy t ≡ true → mine n t ≡ true → left (act n t) < left t) where
    walk : (b n m : ℕ) → n ≤ m → left (after act n s) ≤ b → Rests n ⊎ (left (after act m s) ≤ b)
    walk b zero zero l h = inr h
    walk b (suc n) zero l h = absurd (omega arith)
    walk b n (suc m) l h = elim (Bool-cases (leb n m)) [
      | inl before ↦ elim (walk b n m (leb→le n m before) h) [
        | inl rested ↦ inl rested
        | inr h' ↦ elim (Bool-cases (busy (after act m s))) [
          | inl on ↦ inr (omega (arith, keeps m (after act m s) on))
          | inr off ↦ inl (m, leb→le n m before, off)
        ]
      ]
      | inr late ↦
          let e : n ≡ suc m = omega (arith, leb→gt n m late) in
          inr (subst (λ k. left (after act k s) ≤ b) e h)
    ]

    -- What the state waits for has happened, and less is left.
    fallen :
        (fair : IsFair) (b n : ℕ)
        → left (after act n s) ≤ b
        → Rests n ⊎ ((k : ℕ) × (n ≤ k) × (left (after act k s) < b))
    fallen fair b n h = elim (Bool-cases (busy (after act n s))) [
      | inr off ↦ inl (n, le_refl n, off)
      | inl on ↦
          let (k, late, it) = fair n on in
          elim (walk b n k late h) [
            | inl rested ↦ inl rested
            | inr h' ↦ elim (Bool-cases (busy (after act k s))) [
              | inr off ↦ inl (k, late, off)
              | inl on' ↦ inr (suc k, omega arith, omega (arith, falls k (after act k s) on' it))
            ]
          ]
    ]

    pub rests : IsFair → (b n : ℕ) → left (after act n s) < b → Rests n
    rests fair zero n h = elim h [ ]
    rests fair (suc b) n h = elim (fallen fair b n (omega arith)) [
      | inl rested ↦ rested
      | inr (k, late, less) ↦ let (m, later, off) = rests fair b k less in (m, omega arith, off)
    ]
