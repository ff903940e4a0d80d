-- ===== src/AethorAscii/Keys.antt =====
-- The parser reads no field key twice.
use mathlib.Core.Path.{subst}
use aethor_studio_v.Prelude.{
  false, ◌||◌, some, List, [], ◌∷◌, ◌++◌, map-append, Text, text_mem, ◌≡◌, refl, arith, inl, inr,
  Option-cases, text_eq,
}
use aethor_studio_v.Numerals.{value}
use aethor_studio_v.AethorAscii.ReadBack.{keys_of}
use aethor_studio_v.AethorAscii.Frames.{Fields, parse_fields, split_field}

-- No key twice.
abbrev pub Distinct : List Text → Type 0
Distinct [] = Unit
Distinct (k ∷ ks) = (text_mem k ks ≡ false) × Distinct ks

text_eq_comm : (s t : Text) → text_eq s t ≡ text_eq t s
text_eq_comm [] [] = refl
text_eq_comm [] (_ ∷ _) = refl
text_eq_comm (_ ∷ _) [] = refl
text_eq_comm (a ∷ s) (b ∷ t) = ground (arith, text_eq_comm s t)

text_mem-snoc :
    (k j : Text) (ks : List Text) → text_mem k (ks ++ (j ∷ [])) ≡ (text_mem k ks || text_eq k j)
text_mem-snoc k j [] = ground arith
text_mem-snoc k j (i ∷ ks) = ground (arith, text_mem-snoc k j ks)

Distinct-snoc :
    (k : Text) (ks : List Text) → Distinct ks → text_mem k ks ≡ false → Distinct (ks ++ (k ∷ []))
Distinct-snoc k [] d h = (refl, tt)
Distinct-snoc k (j ∷ ks) (dj, d) h =
    (rw text_mem-snoc (ground (arith, text_eq_comm j k)), Distinct-snoc k ks d (ground arith))

pub parse_fields-Distinct :
    (tokens : List Text) (found : Fields) {fields : Fields}
    → Distinct (keys_of found)
    → parse_fields tokens found ≡ some fields
    → Distinct (keys_of fields)
unfolding parse_fields
parse_fields-Distinct [] found {fields} d h = subst (λ f. Distinct (keys_of f)) (cc) d
parse_fields-Distinct (token ∷ tokens) found {fields} d h =
    elim (Option-cases (split_field token)) [
      | inl bad ↦ absurd (ground arith)
      | inr ((key, value), good) ↦
          parse_fields-Distinct tokens (found ++ ((key, value) ∷ []))
            (rw map-append (Distinct-snoc key (keys_of found) d (ground arith))) (ground arith)
    ]
