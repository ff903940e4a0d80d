-- ===== src/AethorAscii/Crc.antt =====
-- The checksum fits 16 bits, and its four digits read back as the checksum.
use Prim.Native.Nat.{bit_and, bit_xor, digits, bit_and-bitwise}
use native.Mathlib.Decide.{dec_lt}
use aethor_studio_v.Prelude.{
  ℕ, zero, suc, ◌-◌, ◌*◌, ◌/◌, ◌%◌, ◌≤◌, ◌<◌, min, true, [], ◌∷◌, map, Text, length, all, ◌≡◌, refl,
  arith, ok, ap, ◌∙◌, sym,
}
use aethor_studio_v.Numerals.{
  digit, digit_value, is_upper_hex_digit, emit, to_radix, value, value_from,
}
use aethor_studio_v.AethorAscii.{
  is_printable_unit, crc_bit, crc_bits, crc_text, compute_crc16, to_upper, pad_start, format_crc,
}

-- A conjunction of bits is at most its mask: digit by digit the smaller one is taken.
masked-le : (rounds x mask : ℕ) → digits (λ _. 0) min rounds x mask ≤ mask
masked-le zero zero mask = omega arith
masked-le zero (suc x) mask = omega arith
masked-le (suc rounds) zero mask = omega arith
masked-le (suc rounds) (suc x) mask = omega (arith, masked-le rounds (suc x / 2) (mask / 2))

bit_and-le : (x mask : ℕ) → bit_and x mask ≤ mask
bit_and-le x mask = omega (arith, bit_and-bitwise x mask, masked-le x x mask)

crc_bit-lt : (crc : ℕ) → crc_bit crc < 65536
unfolding crc_bit
crc_bit-lt crc =
    ground (arith, bit_and-le (crc * 2) 65535, bit_and-le (bit_xor (crc * 2) 0x1021) 65535)

crc_bits-lt : (n crc : ℕ) → crc_bits (suc n) crc < 65536
unfolding crc_bits
crc_bits-lt zero crc = crc_bit-lt crc
crc_bits-lt (suc n) crc = crc_bits-lt n (crc_bit crc)

pub crc_text-lt : (s : Text) (crc : ℕ) → crc < 65536 → crc_text crc s < 65536
unfolding crc_text
crc_text-lt [] crc h = h
crc_text-lt (c ∷ s) crc h =
    crc_text-lt s (crc_bits 8 (bit_xor crc (c * 256))) (crc_bits-lt 7 (bit_xor crc (c * 256)))

-- The checksum of any text that has one is a 16-bit number.
pub compute_crc16-lt : (s : Text) {crc : ℕ} → compute_crc16 s ≡ ok crc → crc < 65536
unfolding compute_crc16
compute_crc16-lt s h = ground (arith, crc_text-lt s 65535 (omega arith))

abbrev upper_digit : ℕ → ℕ
upper_digit d = to_upper (digit d)

-- The four digits of a 16-bit number.
abbrev four_digits : ℕ → Text
four_digits crc =
    upper_digit (crc / 4096)
    ∷ upper_digit (crc / 256 % 16)
    ∷ upper_digit (crc / 16 % 16)
    ∷ upper_digit (crc % 16)
    ∷ []

digit_value-upper_digit : (d : ℕ) → d < 16 → digit_value (upper_digit d) ≡ d
unfolding digit digit_value to_upper
digit_value-upper_digit d h = ground arith

upper_digit_class :
    (d : ℕ)
    → d < 16
    → (is_upper_hex_digit (upper_digit d) ≡ true) × (is_printable_unit (upper_digit d) ≡ true)
unfolding digit is_upper_hex_digit to_upper is_printable_unit
upper_digit_class d h = ground arith

emit_last : (f n : ℕ) (acc : Text) → n < 16 → emit 16 (suc f) n acc ≡ digit n ∷ acc
unfolding emit
emit_last f n acc h = ground arith

emit_more :
    (f n : ℕ) (acc : Text)
    → 16 ≤ n
    → emit 16 (suc f) n acc ≡ emit 16 f (n / 16) (digit (n % 16) ∷ acc)
unfolding emit
emit_more f n acc h = ground arith

four_texts :
    {a b c d a' b' c' d' : ℕ}
    → a ≡ a'
    → b ≡ b'
    → c ≡ c'
    → d ≡ d'
    → ◌≡◌ {A = Text} (a ∷ b ∷ c ∷ d ∷ []) (a' ∷ b' ∷ c' ∷ d' ∷ [])
four_texts p q r s = cc

-- Leading zeros come from the padding, the other digits from `toString(16)`.
padded_rounds :
    (f n : ℕ)
    → n < 65536
    → pad_start 4 b'0' (map to_upper (emit 16 (suc (suc (suc (suc f)))) n [])) ≡ four_digits n
unfolding pad_start
padded_rounds f n h = elim (dec_lt n 16) [
  | yes p ↦ rw (emit_last (suc (suc (suc f))) n [] p) (
      four_texts (zero_digit (omega arith)) (zero_digit (omega arith)) (zero_digit (omega arith))
        (ap upper_digit (omega arith)))
  | no p ↦ rw (emit_more (suc (suc (suc f))) n [] (omega arith)) (elim (dec_lt (n / 16) 16) [
    | yes q ↦ rw (emit_last (suc (suc f)) (n / 16) (digit (n % 16) ∷ []) q) (
        four_texts (zero_digit (omega arith)) (zero_digit (omega arith))
          (ap upper_digit (omega arith)) refl)
    | no q ↦
        rw (emit_more (suc (suc f)) (n / 16) (digit (n % 16) ∷ []) (omega arith))
          (elim (dec_lt (n / 16 / 16) 16) [
            | yes r ↦
                rw (emit_last (suc f) (n / 16 / 16) (digit (n / 16 % 16) ∷ digit (n % 16) ∷ []) r)
                  (four_texts (zero_digit (omega arith)) (ap upper_digit (omega arith)) refl refl)
            | no r ↦
                rw
                  (
                    emit_more (suc f) (n / 16 / 16) (digit (n / 16 % 16) ∷ digit (n % 16) ∷ [])
                        (omega arith),
                    emit_last f (n / 16 / 16 / 16)
                        (digit (n / 16 / 16 % 16) ∷ digit (n / 16 % 16) ∷ digit (n % 16) ∷ [])
                        (omega arith),
                  )
                  (four_texts (ap upper_digit (omega arith)) (ap upper_digit (omega arith)) refl
                    refl)
          ])
  ])
]
  where
    zero_digit : {d : ℕ} → d ≡ 0 → 48 ≡ upper_digit d
    zero_digit e = rw e (unfold digit to_upper in refl)

-- `formatCrc` writes a 16-bit number with exactly four digits.
pub format_crc-four_digits : (crc : ℕ) → crc < 65536 → format_crc crc ≡ four_digits crc
unfolding format_crc to_radix
format_crc-four_digits crc h = elim (dec_lt crc 16) [
  | yes p ↦
      ap (λ t. pad_start 4 b'0' (map to_upper t))
        (emit_last crc crc [] p ∙ sym (emit_last (suc (suc (suc crc))) crc [] p))
      ∙ padded_rounds crc crc h
  | no p ↦
      ap (λ f. pad_start 4 b'0' (map to_upper (emit 16 f crc []))) (rounds p)
      ∙ padded_rounds (crc - 3) crc h
]
  where
    rounds : ¬ (crc < 16) → suc crc ≡ suc (suc (suc (suc (crc - 3))))
    rounds p = omega arith

-- Four digits of `[0-9A-F]`, printable, whose value is the number.
pub format_crc_lem :
    (crc : ℕ)
    → crc < 65536
    → (length (format_crc crc) ≡ 4)
      × (all is_upper_hex_digit (format_crc crc) ≡ true)
      × (all is_printable_unit (format_crc crc) ≡ true)
      × (value 16 (format_crc crc) ≡ crc)
unfolding value value_from
format_crc_lem crc h = rw (format_crc-four_digits crc h) (
  refl,
  ground
      (arith, upper_digit_class a, upper_digit_class b, upper_digit_class c, upper_digit_class d),
  ground
      (arith, upper_digit_class a, upper_digit_class b, upper_digit_class c, upper_digit_class d),
  omega (
    arith,
    digit_value-upper_digit a (omega arith),
    digit_value-upper_digit b (omega arith),
    digit_value-upper_digit c (omega arith),
    digit_value-upper_digit d (omega arith),
  ),
)
  where
    a : ℕ
    a = crc / 4096

    b : ℕ
    b = crc / 256 % 16

    c : ℕ
    c = crc / 16 % 16

    d : ℕ
    d = crc % 16
