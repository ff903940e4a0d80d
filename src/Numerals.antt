-- ===== src/Numerals.antt =====
-- What the language does to natural numbers in text: `String(n)`, `n.toString(16)`, and the value
-- of a run of digits (`Number(text)`, `Number.parseInt(text, 16)`).
pub mod RoundTrip
use aethor_studio_v.Prelude.{
  ℕ, zero, suc, ◌+◌, ◌-◌, ◌*◌, ◌/◌, ◌%◌, Bool, ◌&&◌, ◌||◌, [], ◌∷◌, Text, ltb, leb, if◌then◌else◌,
  codes, ◌≡◌, refl,
}

-- The digit for a value below 16, in lower case.
unfoldable pub digit : ℕ → ℕ
digit d = if ltb d 10 then b'0' + d else b'a' + (d - 10)

unfoldable pub digit_value : ℕ → ℕ
digit_value c = if ltb c b'A' then c - b'0' else if ltb c b'a' then c - b'A' + 10 else c - b'a' + 10

unfoldable pub is_decimal_digit : ℕ → Bool
is_decimal_digit c = leb b'0' c && leb c b'9'

-- `[0-9A-F]`
unfoldable pub is_upper_hex_digit : ℕ → Bool
is_upper_hex_digit c = leb b'0' c && leb c b'9' || leb b'A' c && leb c b'F'

module _ (radix : ℕ) where
  -- The digits of `n` in front of `acc`. More than `n` rounds are never needed.
  unfoldable pub emit : ℕ → ℕ → Text → Text
  unfolding digit
  emit zero n acc = acc
  emit (suc f) n acc =
      let rest = emit f (n / radix) (digit (n % radix) ∷ acc) in
      if ltb n radix then digit n ∷ acc else rest

  unfoldable pub to_radix : ℕ → Text
  unfolding emit
  to_radix n = emit (suc n) n []

  -- The value of a run of digits that begins with the value `v`.
  unfoldable pub value_from : ℕ → Text → ℕ
  unfolding digit_value
  value_from v [] = v
  value_from v (c ∷ s) = value_from (v * radix + digit_value c) s

  unfoldable pub value : Text → ℕ
  unfolding value_from
  value s = value_from 0 s

decimal_text : to_radix 10 4294967295 ≡ codes "4294967295"
unfolding to_radix
decimal_text = refl

hexadecimal_text : to_radix 16 0x1d0f ≡ codes "1d0f"
unfolding to_radix
hexadecimal_text = refl
