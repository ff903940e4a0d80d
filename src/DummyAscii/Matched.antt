-- ===== src/DummyAscii/Matched.antt =====
-- The acknowledgement of a mode against the text that the parser matches.
use aethor_studio_v.Prelude.{
  ℕ, Bool, true, false, not, ◌&&◌, Option, none, some, [], ◌∷◌, ◌++◌, Text, codes, is_empty, length,
  if◌then◌else◌, text_eq, eq_of_text_eq, starts_with, all, drop, ◌==◌, ◌≡◌, refl, sym, ap, ◌∙◌,
  arith, Bool-cases, inl, inr,
}
use aethor_studio_v.Numerals.{is_decimal_digit}
use aethor_studio_v.DummyAscii.Responses.{
  span, is_digits, is_name_unit, mode_prefix, name_match, with_digits, mode_ack_match,
}

same_unit : (a b : ℕ) → (a == b) ≡ true → b ≡ a
same_unit a b h = ground arith

pub starts_with-append : (p s : Text) → starts_with p s ≡ true → s ≡ p ++ drop (length p) s
starts_with-append [] s h = refl
starts_with-append (a ∷ p) [] h = absurd (ground arith)
starts_with-append (a ∷ p) (b ∷ s) h =
    ap (λ x. x ∷ s) (same_unit a b (ground arith))
    ∙ ap (λ t. a ∷ t) (starts_with-append p s (ground arith))

span-append : (p : ℕ → Bool) (s : Text) → s ≡ (span p s).0 ++ (span p s).1
unfolding span
span-append p [] = refl
span-append p (c ∷ s) = elim (Bool-cases (p c)) [
  | inl here ↦ rw here (ap (λ t. c ∷ t) (span-append p s))
  | inr other ↦ rw other refl
]

all-span : (p : ℕ → Bool) (s : Text) → all p (span p s).0 ≡ true
unfolding span
all-span p [] = refl
all-span p (c ∷ s) = elim (Bool-cases (p c)) [
  | inl here ↦ rw here (rw (here, all-span p s) refl)
  | inr other ↦ rw other refl
]

-- The line `ok Set command mode to [DIGITS] (NAME)`.
pub record IsAckLine (raw digits name : Text) : Type 0 where
  pub line :
      raw ≡ codes "ok Set command mode to [" ++ (digits ++ (codes "] (" ++ (name ++ codes ")")))
  pub are_digits : is_digits digits ≡ true
  pub name_units : all is_name_unit name ≡ true
  pub named : is_empty name ≡ false

record IsTail (s name : Text) : Type 0 where
  line : s ≡ codes "] (" ++ (name ++ codes ")")
  name_units : all is_name_unit name ≡ true
  named : is_empty name ≡ false

some-injective : {A : Type 0} (a b : A) → ◌≡◌ {A = Option A} (some a) (some b) → a ≡ b
some-injective a b h = cc

none-some : {A : Type 0} (a : A) → ◌≡◌ {A = Option A} none (some a) → ⊥
none-some a h = cc

name_match-IsTail : (s : Text) {name : Text} → name_match s ≡ some name → IsTail s name
unfolding name_match
name_match-IsTail s {name} h =
    let found = span is_name_unit (drop 3 s) in
    elim (Bool-cases
      (starts_with (codes "] (") s && not (is_empty found.0) && text_eq found.1 (codes ")"))) [
        | inr bad ↦
            absurd (none-some name (sym (ap (λ b. if b then some found.0 else none) bad) ∙ h))
        | inl good ↦
            let begins : starts_with (codes "] (") s ≡ true = ground (arith, good) in
            let ends : found.1 ≡ codes ")" =
              eq_of_text_eq found.1 (codes ")") (ground (arith, good)) in
            let same : found.0 ≡ name =
              some-injective found.0 name
                (sym (ap (λ b. if b then some found.0 else none) good) ∙ h) in
            record {
              line =
                  starts_with-append (codes "] (") s begins
                  ∙ ap (λ t. codes "] (" ++ t)
                      (span-append is_name_unit (drop 3 s) ∙ ap (λ t. found.0 ++ t) ends)
                  ∙ ap (λ t. codes "] (" ++ (t ++ codes ")")) same;
              name_units = ap (all is_name_unit) (sym same) ∙ all-span is_name_unit (drop 3 s);
              named = ap is_empty (sym same) ∙ ground (arith, good);
            }
      ]

with_digits-some :
    (digits : Text) (o : Option Text) {m : Text × Text}
    → with_digits digits o ≡ some m
    → (o ≡ some m.1) × (m.0 ≡ digits) × (is_empty digits ≡ false)
with_digits-some digits none {m} h = absurd (none-some m h)
with_digits-some digits (some name) {m} h = elim (Bool-cases (is_empty digits)) [
  | inl nothing ↦
      absurd (none-some m (sym (ap (λ b. if b then none else some (digits, name)) nothing) ∙ h))
  | inr given ↦
      let same : (digits, name) ≡ m =
        some-injective (digits, name) m
          (sym (ap (λ b. if b then none else some (digits, name)) given) ∙ h) in
      (ap (λ x. some (x.1)) same, sym (ap (λ x. x.0) same), given)
]

pub mode_ack_match-IsAckLine :
    (raw : Text) {m : Text × Text} → mode_ack_match raw ≡ some m → IsAckLine raw m.0 m.1
unfolding mode_ack_match
mode_ack_match-IsAckLine raw {m} h =
    let digits = span is_decimal_digit (drop 24 raw) in
    elim (Bool-cases (starts_with mode_prefix raw)) [
      | inr bad ↦ absurd (
          none-some m (
            sym (ap (λ b. if b then with_digits digits.0 (name_match digits.1) else none) bad) ∙ h))
      | inl begins ↦
          let (named, same, given) = with_digits-some digits.0 (name_match digits.1) {m = m} (
            sym (ap (λ b. if b then with_digits digits.0 (name_match digits.1) else none) begins)
            ∙ h) in
          let tail = name_match-IsTail digits.1 named in
          record {
            line =
                starts_with-append mode_prefix raw begins
                ∙ ap (λ t. mode_prefix ++ t)
                    (span-append is_decimal_digit (drop 24 raw)
                      ∙ ap (λ t. digits.0 ++ t) tail.line
                      ∙ ap (λ t. t ++ (codes "] (" ++ (m.1 ++ codes ")"))) (sym same));
            are_digits =
                ap is_digits same
                ∙ digits_of digits.0 given (all-span is_decimal_digit (drop 24 raw));
            name_units = tail.name_units;
            named = tail.named;
          }
    ]
  where
    digits_of : (s : Text) → is_empty s ≡ false → all is_decimal_digit s ≡ true → is_digits s ≡ true
    digits_of s given digits = rw (given, digits) refl
