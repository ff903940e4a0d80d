-- ===== src/DummyAscii/Stripped.antt =====
-- `toFixed(3)` without its last zeros: what `strip_zeros` leaves of a decimal.
use mathlib.Core.List.{reverse, reverse-append, reverse-reverse}
use aethor_studio_v.Prelude.{
  ℕ, ◌≤◌, Bool, true, false, not, [], ◌∷◌, ◌++◌, Text, length, ◌==◌, if◌then◌else◌, all, any, ◌≡◌,
  refl, ap, ◌∙◌, arith, Bool-cases, inl, inr,
}
use aethor_studio_v.Numerals.{is_decimal_digit}
use aethor_studio_v.DummyAscii.Commands.{strip_zeros, strip_reversed}

-- The sign of a decimal.
abbrev pub minus : Bool → Text
minus true = 45 ∷ []
minus false = []

-- Some digit is not zero.
abbrev pub is_nonzero : Text → Bool
is_nonzero digits = any (λ c. not (c == 48)) digits

-- The digits after the point that are left, and those with the point.
abbrev pub kept : ℕ → ℕ → ℕ → Text
kept a b c =
    if c == 48
    then if b == 48 then if a == 48 then [] else a ∷ [] else a ∷ b ∷ []
    else a ∷ b ∷ c ∷ []

abbrev pub behind_point : Text → Text
behind_point [] = []
behind_point (c ∷ s) = 46 ∷ c ∷ s

digit-point : (c : ℕ) → is_decimal_digit c ≡ true → (c == 46) ≡ false
unfolding is_decimal_digit
digit-point c h = ground arith

-- The texts backwards.
strip-kept :
    (a b c : ℕ) (r : Text)
    → is_decimal_digit a ≡ true
    → is_decimal_digit b ≡ true
    → strip_reversed (c ∷ b ∷ a ∷ 46 ∷ r) ≡ reverse (behind_point (kept a b c)) ++ r
strip-kept a b c r digit_a digit_b = elim (Bool-cases (c == 48)) [
  | inr last ↦ rw last refl
  | inl last ↦ elim (Bool-cases (b == 48)) [
    | inr middle ↦ rw (last, middle, digit-point b digit_b) refl
    | inl middle ↦ elim (Bool-cases (a == 48)) [
      | inr first ↦ rw (last, middle, first, digit-point a digit_a) refl
      | inl first ↦ rw (last, middle, first) refl
    ]
  ]
]

pub strip_zeros-kept :
    (p : Text) (a b c : ℕ)
    → is_decimal_digit a ≡ true
    → is_decimal_digit b ≡ true
    → strip_zeros (p ++ (46 ∷ a ∷ b ∷ c ∷ [])) ≡ p ++ behind_point (kept a b c)
unfolding strip_zeros
strip_zeros-kept p a b c digit_a digit_b =
    ap (λ t. reverse (strip_reversed t)) (reverse-append p (46 ∷ a ∷ b ∷ c ∷ []))
    ∙ ap reverse (strip-kept a b c (reverse p) digit_a digit_b)
    ∙ reverse-append (reverse (behind_point (kept a b c))) (reverse p)
    ∙ ap (λ t. t ++ reverse (reverse (behind_point (kept a b c)))) (reverse-reverse p)
    ∙ ap (λ t. p ++ t) (reverse-reverse (behind_point (kept a b c)))

pub kept-digits :
    (a b c : ℕ)
    → all is_decimal_digit (a ∷ b ∷ c ∷ []) ≡ true
    → (all is_decimal_digit (kept a b c) ≡ true) × (length (kept a b c) ≤ 3)
kept-digits a b c digits = elim (Bool-cases (c == 48)) [
  | inr last ↦ rw last (digits, omega arith)
  | inl last ↦ elim (Bool-cases (b == 48)) [
    | inr middle ↦ rw (last, middle) (ground arith, omega arith)
    | inl middle ↦ elim (Bool-cases (a == 48)) [
      | inr first ↦ rw (last, middle, first) (ground arith, omega arith)
      | inl first ↦ rw (last, middle, first) (refl, omega arith)
    ]
  ]
]

-- A decimal keeps a digit that is not zero.
pub kept-is_nonzero :
    (whole : Text) (a b c : ℕ)
    → is_nonzero (whole ++ (a ∷ b ∷ c ∷ [])) ≡ true
    → is_nonzero (whole ++ kept a b c) ≡ true
kept-is_nonzero [] a b c h = elim (Bool-cases (c == 48)) [
  | inr last ↦ rw last h
  | inl last ↦ elim (Bool-cases (b == 48)) [
    | inr middle ↦ rw (last, middle) (ground arith)
    | inl middle ↦ elim (Bool-cases (a == 48)) [
      | inr first ↦ rw (last, middle, first) (ground arith)
      | inl first ↦ absurd (ground arith)
    ]
  ]
]
kept-is_nonzero (d ∷ whole) a b c h = ground (arith, kept-is_nonzero whole a b c)
