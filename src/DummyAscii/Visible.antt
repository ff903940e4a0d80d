-- ===== src/DummyAscii/Visible.antt =====
-- Texts of visible characters: `trim` and the tests of the validator on them.
use mathlib.Core.List.{reverse, reverse-cons, reverse-reverse}
use aethor_studio_v.Prelude.{
  ℕ, ◌<◌, Bool, true, false, not, ◌&&◌, [], ◌∷◌, ◌++◌, Text, leb, ◌==◌, trim, trim_start, is_space,
  has_unit, all, Lacks, ◌≡◌, refl, ap, ◌∙◌, arith,
}

-- Printable and no space.
abbrev pub is_visible : ℕ → Bool
is_visible c = leb 0x21 c && leb c 0x7e

visible-is_space : (c : ℕ) → is_visible c ≡ true → is_space c ≡ false
unfolding is_space
visible-is_space c h = ground arith

all-snoc : (p : ℕ → Bool) (s : Text) (c : ℕ) → all p (s ++ (c ∷ [])) ≡ (all p s && p c)
all-snoc p [] c = ground arith
all-snoc p (d ∷ s) c = rw (all-snoc p s c) (ground arith)

all-reverse : (p : ℕ → Bool) (s : Text) → all p s ≡ true → all p (reverse s) ≡ true
all-reverse p [] h = refl
all-reverse p (c ∷ s) h =
    rw (reverse-cons c s, all-snoc p (reverse s) c, all-reverse p s (ground arith)) (ground arith)

trim_start_visible : (s : Text) → all is_visible s ≡ true → trim_start s ≡ s
unfolding trim_start
trim_start_visible [] h = refl
trim_start_visible (c ∷ s) h = rw (visible-is_space c (ground arith)) refl

pub trim_visible : (s : Text) → all is_visible s ≡ true → trim s ≡ s
unfolding trim
trim_visible s h =
    ap (λ t. reverse (trim_start (reverse t))) (trim_start_visible s h)
    ∙ ap reverse (trim_start_visible (reverse s) (all-reverse is_visible s h))
    ∙ reverse-reverse s

pub visible-has_unit :
    (c : ℕ) (s : Text) → c < 0x21 → all is_visible s ≡ true → has_unit c s ≡ false
visible-has_unit c [] low_unit h = refl
visible-has_unit c (d ∷ s) low_unit h = ground (arith, visible-has_unit c s low_unit)

pub visible-printable :
    (s : Text) → all is_visible s ≡ true → all (λ c. leb 0x20 c && leb c 0x7e) s ≡ true
visible-printable [] h = refl
visible-printable (c ∷ s) h = ground (arith, visible-printable s)

-- A unit of a numeral: visible and no comma.
abbrev pub is_numeral_unit : ℕ → Bool
is_numeral_unit c = leb 0x21 c && leb c 0x7e && not (c == 44)

pub numeral-visible : (s : Text) → all is_numeral_unit s ≡ true → all is_visible s ≡ true
numeral-visible [] h = refl
numeral-visible (c ∷ s) h = ground (arith, numeral-visible s)

pub numeral-Lacks : (s : Text) → all is_numeral_unit s ≡ true → Lacks 44 s
numeral-Lacks [] h = refl
numeral-Lacks (c ∷ s) h = ground (arith, numeral-Lacks s)
