-- ===== src/AethorAscii/Words.antt =====
-- What the words of an accepted body say: the parser's results against the text that they came from.
use mathlib.Core.Path.{subst}
use mathlib.Core.Option
use mathlib.Core.Option.{Option, some, none}
use aethor_studio_v.Prelude.{
  ℕ, suc, true, false, not, ◌||◌, ◌==◌, List, [], ◌∷◌, ◌++◌, map, append_assoc, append-nil, Text,
  is_empty, has_unit, length, length-append, length-take, take, drop, All, split, join, index_of,
  cons_head, if◌then◌else◌, ◌≡◌, refl, ap, sym, ◌∙◌, arith, Bool-cases, Option-cases, inl, inr,
}
use aethor_studio_v.AethorAscii.{matches_field_key, has_reserved}
use aethor_studio_v.AethorAscii.Frames.{Fields, field_token, split_field, parse_fields}

join-cons_head : (sep c : ℕ) (ps : List Text) → join sep (cons_head c ps) ≡ c ∷ join sep ps
unfolding join
join-cons_head sep c [] = refl
join-cons_head sep c (p ∷ []) = refl
join-cons_head sep c (p ∷ q ∷ ps) = refl

split-cons : (sep : ℕ) (s : Text) → (p : Text) × (ps : List Text) × (split sep s ≡ p ∷ ps)
unfolding split
split-cons sep [] = ([], [], refl)
split-cons sep (c ∷ s) =
    let (p, ps, e) = split-cons sep s in
    elim (Bool-cases (c == sep)) [
      | inl here ↦ ([], p ∷ ps, rw (here, e) refl)
      | inr other ↦ (c ∷ p, ps, rw (other, e) refl)
    ]

same_unit : (a b : ℕ) → (a == b) ≡ true → a ≡ b
same_unit a b h = ground arith

-- Joining the parts of a split gives the text back.
pub join-split : (sep : ℕ) (s : Text) → join sep (split sep s) ≡ s
unfolding split join
join-split sep [] = refl
join-split sep (c ∷ s) =
    let (p, ps, e) = split-cons sep s in
    let rest = join-split sep s in
    elim (Bool-cases (c == sep)) [
      | inl here ↦ rw here (
          ap (λ l. join sep ([] ∷ l)) e
          ∙ ap (λ l. sep ∷ join sep l) (sym e)
          ∙ ap (λ t. sep ∷ t) rest
          ∙ ap (λ x. x ∷ s) (sym (same_unit c sep here)))
      | inr other ↦ rw other (join-cons_head sep c (split sep s) ∙ ap (λ t. c ∷ t) rest)
    ]

mapped_suc :
    (o : Option ℕ) (i : ℕ) → Option.map suc o ≡ some i → (j : ℕ) × (o ≡ some j) × (i ≡ suc j)
mapped_suc none i h = absurd cc
mapped_suc (some j) i h = (j, refl, some-injective i (suc j) (sym h))
  where
    some-injective : (a b : ℕ) → ◌≡◌ {A = Option ℕ} (some a) (some b) → a ≡ b
    some-injective a b e = cc

index_of-parts :
    (c : ℕ) (s : Text) (i : ℕ) → index_of c s ≡ some i → take i s ++ (c ∷ drop (suc i) s) ≡ s
unfolding index_of
index_of-parts c [] i h = absurd cc
index_of-parts c (d ∷ s) i h = elim (Bool-cases (d == c)) [
  | inl here ↦
      let first : 0 ≡ i =
        zero-some i
          (sym (ap (λ b. if b then some 0 else Option.map suc (index_of c s)) here) ∙ h) in
      subst (λ k. take k (d ∷ s) ++ (c ∷ drop (suc k) (d ∷ s)) ≡ d ∷ s) first
        (ap (λ x. x ∷ s) (sym (same_unit d c here)))
  | inr other ↦
      let (j, found, next) =
        mapped_suc (index_of c s) i
          (sym (ap (λ b. if b then some 0 else Option.map suc (index_of c s)) other) ∙ h) in
      subst (λ k. take k (d ∷ s) ++ (c ∷ drop (suc k) (d ∷ s)) ≡ d ∷ s) (sym next)
        (ap (λ t. d ∷ t) (index_of-parts c s j found))
]
  where
    zero-some : (a : ℕ) → ◌≡◌ {A = Option ℕ} (some 0) (some a) → 0 ≡ a
    zero-some a e = cc

-- A field as the parser reads it.
pub record IsField (field : Text × Text) : Type 0 where
  pub key_matches : matches_field_key field.0 ≡ true
  pub value_given : is_empty field.1 ≡ false
  pub one_separator : has_unit b'=' field.1 ≡ false
  pub not_reserved : has_reserved field.1 ≡ false

empty_length : (s : Text) → is_empty s ≡ true → length s ≡ 0
empty_length [] h = refl
empty_length (c ∷ s) h = absurd (ground arith)

not_last-is_empty :
    (c : ℕ) (s : Text) (i : ℕ)
    → take i s ++ (c ∷ drop (suc i) s) ≡ s
    → (suc i == length s) ≡ false
    → is_empty (drop (suc i) s) ≡ false
not_last-is_empty c s i parts more = elim (Bool-cases (is_empty (drop (suc i) s))) [
  | inr given ↦ given
  | inl nothing ↦ absurd (
      ground (
        arith,
        more,
        ap length parts,
        length-append (take i s) (c ∷ drop (suc i) s),
        length-take i s,
        empty_length (drop (suc i) s) nothing,
      ))
]

found_field_lem :
    (token : Text) (i : ℕ) {field : Text × Text}
    → take i token ++ (b'=' ∷ drop (suc i) token) ≡ token
    → (if i == 0 || suc i == length token || has_unit b'=' (drop (suc i) token)
        then none
        else if not (matches_field_key (take i token)) || has_reserved (drop (suc i) token)
        then none
        else some (take i token, drop (suc i) token))
      ≡ some field
    → IsField field × (field_token field ≡ token)
found_field_lem token i {field} parts h =
    elim (Bool-cases (i == 0 || suc i == length token || has_unit b'=' (drop (suc i) token))) [
      | inl bad ↦ absurd (none-some field (sym (ap (λ b. if b then none else chosen) bad) ∙ h))
      | inr fits ↦
          elim (Bool-cases
            (not (matches_field_key (take i token)) || has_reserved (drop (suc i) token))) [
              | inl bad ↦ absurd (
                  none-some field (
                    sym (ap (λ b. if b then none else some pair) bad)
                    ∙ sym (ap (λ b. if b then none else chosen) fits)
                    ∙ h))
              | inr good ↦
                  subst (λ f. IsField f × (field_token f ≡ token))
                    (pair-injective pair field (
                      sym (ap (λ b. if b then none else some pair) good)
                      ∙ sym (ap (λ b. if b then none else chosen) fits)
                      ∙ h))
                    (
                      record {
                        key_matches = ground (arith, good);
                        value_given = not_last-is_empty b'=' token i parts (ground (arith, fits));
                        one_separator = ground (arith, fits);
                        not_reserved = ground (arith, good);
                      },
                      parts,
                    )
            ]
    ]
  where
    pair : Text × Text
    pair = (take i token, drop (suc i) token)

    chosen : Option (Text × Text)
    chosen =
        if not (matches_field_key (take i token)) || has_reserved (drop (suc i) token)
        then none
        else some pair

    none-some : (f : Text × Text) → ◌≡◌ {A = Option (Text × Text)} none (some f) → ⊥
    none-some f e = cc

    pair-injective : (f g : Text × Text) → ◌≡◌ {A = Option (Text × Text)} (some f) (some g) → f ≡ g
    pair-injective f g e = cc

split_field-IsField :
    (token : Text) {field : Text × Text}
    → split_field token ≡ some field
    → IsField field × (field_token field ≡ token)
unfolding split_field
split_field-IsField token {field} h = elim (Option-cases (index_of b'=' token)) [
  | inl missing ↦ absurd (ground arith)
  | inr (i, at) ↦ found_field_lem token i (index_of-parts b'=' token i at) (ground (arith, at))
]

same_fields : (a b : Fields) → ◌≡◌ {A = Option Fields} (some a) (some b) → a ≡ b
same_fields a b h = cc

-- The fields come from the tokens, in their order.
pub parse_fields-tokens :
    (tokens : List Text) (found : Fields) {fields : Fields}
    → parse_fields tokens found ≡ some fields
    → (new : Fields) × (fields ≡ found ++ new) × (map field_token new ≡ tokens) × All IsField new
unfolding parse_fields
parse_fields-tokens [] found {fields} h =
    ([], same_fields fields found (sym h) ∙ sym (append-nil found), refl, tt)
parse_fields-tokens (token ∷ tokens) found {fields} h = elim (Option-cases (split_field token)) [
  | inl bad ↦ absurd (ground arith)
  | inr ((key, value), good) ↦
      let (new, same, tokens_of, all_fields) =
        parse_fields-tokens tokens (found ++ ((key, value) ∷ [])) {fields = fields}
          (ground arith) in
      let (is_field, printed) = split_field-IsField token good in
      (
        (key, value) ∷ new,
        same ∙ append_assoc found ((key, value) ∷ []) new,
        ap (λ t. t ∷ map field_token new) printed ∙ ap (λ l. token ∷ l) tokens_of,
        (is_field, all_fields),
      )
]
