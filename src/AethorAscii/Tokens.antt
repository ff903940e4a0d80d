-- ===== src/AethorAscii/Tokens.antt =====
-- The tokens of a formatted request: printable, not empty, without blanks and asterisks.
use mathlib.Core.Path.{subst}
use native.Mathlib.Nat.{suc-add}
use aethor_studio_v.Prelude.{
  Bool-cases, inl, inr, ℕ, ◌+◌, ◌<◌, Bool, true, false, not, ◌&&◌, some, List, [], ◌∷◌, ◌++◌, Text,
  text_eq, text_mem, text_eq_iff, is_empty, length, all, All, drop, take-append, length-append,
  index_of-append, Lacks, is_space, ok, ◌≡◌, refl, sym, arith, ◌==◌,
}
use aethor_studio_v.Numerals.{is_decimal_digit, to_radix}
use aethor_studio_v.Numerals.RoundTrip.{all-to_radix}
use aethor_studio_v.AethorAscii.{
  request_operations, is_printable_unit, is_printable_ascii, is_key_unit, matches_field_key,
  has_reserved,
}
use aethor_studio_v.AethorAscii.Frames.{assert_field, field_token, split_field}

unfoldable pub is_token_unit : ℕ → Bool
is_token_unit c = is_printable_unit c && not (c == b' ') && not (c == b'*')

pub record IsToken (s : Text) : Type 0 where
  pub units : all is_token_unit s ≡ true
  pub not_empty : is_empty s ≡ false

pub all-append : (p : ℕ → Bool) (s t : Text) → all p (s ++ t) ≡ (all p s && all p t)
all-append p [] t = refl
all-append p (c ∷ s) t = ground (arith, all-append p s t)

-- A class of characters inside another.
all_weaken :
    (p q : ℕ → Bool) (s : Text)
    → ((c : ℕ) → p c ≡ true → q c ≡ true)
    → all p s ≡ true
    → all q s ≡ true
all_weaken p q [] h e = refl
all_weaken p q (c ∷ s) h e = ground (arith, h c, all_weaken p q s h)

all-Lacks : (p : ℕ → Bool) (x : ℕ) (s : Text) → p x ≡ false → all p s ≡ true → Lacks x s
all-Lacks p x [] h e = refl
all-Lacks p x (c ∷ s) h e = ground (arith, all-Lacks p x s h)

pub token-printable : (s : Text) → IsToken s → all is_printable_unit s ≡ true
unfolding is_token_unit
token-printable s t = all_weaken is_token_unit is_printable_unit s (λ c h. ground arith) t.units

pub token-Lacks_blank : (s : Text) → IsToken s → Lacks b' ' s
unfolding is_token_unit is_printable_unit
token-Lacks_blank s t = all-Lacks is_token_unit b' ' s refl t.units

pub token-Lacks_asterisk : (s : Text) → IsToken s → Lacks b'*' s
unfolding is_token_unit is_printable_unit
token-Lacks_asterisk s t = all-Lacks is_token_unit b'*' s refl t.units

-- A printable text has no line break.
pub printable-Lacks : (x : ℕ) (s : Text) → x < 32 → all is_printable_unit s ≡ true → Lacks x s
unfolding is_printable_unit
printable-Lacks x s h e = all-Lacks is_printable_unit x s (ground arith) e

pub to_radix-IsToken : (n : ℕ) → is_empty (to_radix 10 n) ≡ false → IsToken (to_radix 10 n)
unfolding is_token_unit is_printable_unit is_decimal_digit
to_radix-IsToken n h = record {
  units =
      all_weaken is_decimal_digit is_token_unit (to_radix 10 n) (λ c e. ground arith)
        (all-to_radix n);
  not_empty = h;
}

pub of_text_mem :
    (P : Text → Type 0) (s : Text) (l : List Text) → All P l → text_mem s l ≡ true → P s
of_text_mem P s [] h e = cc
of_text_mem P s (t ∷ l) (ht, h) e = elim (Bool-cases (text_eq s t)) [
  | inl same ↦ subst P (sym ((text_eq_iff s t).0 same)) ht
  | inr other ↦ of_text_mem P s l h (ground arith)
]

pub operation-IsToken : (s : Text) → text_mem s request_operations ≡ true → IsToken s
unfolding is_token_unit is_printable_unit request_operations
operation-IsToken s e = of_text_mem IsToken s request_operations (assumption (refl)) e

-- What `assertField` has checked of a field.
pub record IsChecked (key value : Text) (keys : List Text) : Type 0 where
  pub key_ok : matches_field_key key ≡ true
  pub given : is_empty value ≡ false
  pub unreserved : has_reserved value ≡ false
  pub printable : all is_printable_unit value ≡ true
  pub fresh : text_mem key keys ≡ false

pub assert_field-IsChecked :
    (key value : Text) (keys : List Text) {u : Unit {0}}
    → assert_field key value keys ≡ ok u
    → IsChecked key value keys
unfolding assert_field is_printable_ascii
assert_field-IsChecked key value keys h = ground arith

key_token_unit : (c : ℕ) → is_key_unit c ≡ true → is_token_unit c ≡ true
unfolding is_key_unit is_token_unit is_printable_unit
key_token_unit c h = ground arith

key-all : (key : Text) → matches_field_key key ≡ true → all is_key_unit key ≡ true
unfolding matches_field_key is_key_unit
key-all [] h = cc
key-all (c ∷ s) h = ground arith

key_not_empty : (key : Text) → matches_field_key key ≡ true → is_empty key ≡ false
unfolding matches_field_key
key_not_empty [] h = cc
key_not_empty (c ∷ s) h = refl

key-Lacks : (key : Text) → matches_field_key key ≡ true → Lacks b'=' key
unfolding is_key_unit
key-Lacks key h = all-Lacks is_key_unit b'=' key refl (key-all key h)

value_units :
    (v : Text)
    → has_reserved v ≡ false
    → all is_printable_unit v ≡ true
    → (all is_token_unit v ≡ true) × Lacks b'=' v
unfolding has_reserved is_token_unit is_printable_unit is_space
value_units [] h p = (refl, refl)
value_units (c ∷ v) h p =
    let rest = value_units v (ground arith) (ground arith) in (ground arith, ground arith)

pub field_token-IsToken :
    (key value : Text) (keys : List Text)
    → IsChecked key value keys
    → IsToken (field_token (key, value))
unfolding is_token_unit is_printable_unit
field_token-IsToken key value keys c = record {
  units = rw (
    all-append is_token_unit key (b'=' ∷ value),
    all_weaken is_key_unit is_token_unit key key_token_unit (key-all key c.key_ok),
    (value_units value c.unreserved c.printable).0,
  );
  not_empty = is_empty-append key;
}
  where
    is_empty-append : (k : Text) → is_empty (k ++ (b'=' ∷ value)) ≡ false
    is_empty-append [] = refl
    is_empty-append (d ∷ k) = refl

pub length_pos : (s : Text) → is_empty s ≡ false → 0 < length s
length_pos [] h = cc
length_pos (c ∷ s) h = omega arith

drop-field : (key value : Text) → drop (length key + 1) (key ++ (b'=' ∷ value)) ≡ value
drop-field [] value = refl
drop-field (c ∷ key) value = rw suc-add (drop-field key value)

pub split_field-field_token :
    (key value : Text) (keys : List Text)
    → IsChecked key value keys
    → split_field (field_token (key, value)) ≡ some (key, value)
unfolding split_field
split_field-field_token key value keys c = ground (
  arith,
  index_of-append b'=' key value (key-Lacks key c.key_ok),
  take-append key (b'=' ∷ value),
  drop-field key value,
  length-append key (b'=' ∷ value),
  value_units value c.unreserved c.printable,
  length_pos key (key_not_empty key c.key_ok),
  length_pos value c.given,
)
