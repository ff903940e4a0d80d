-- ===== src/Twin/Pending.antt =====
-- The frames that wait for a commit: at most one for each arm.
use mathlib.Core.Path.{subst}
use aethor_studio_v.Prelude.{
  ◌+◌, Bool, true, false, ◌||◌, List, [], ◌∷◌, ◌++◌, Text, length, length-append, if◌then◌else◌,
  text_eq, text_eq_refl, eq_of_text_eq, codes, lookup, insert, lookup-insert_ne, ◌≡◌, refl, ap, sym,
  ◌∙◌, arith, Bool-cases, Option-cases, inl, inr,
}
use aethor_studio_v.Contracts.{AethorArmMotorFrame}
use aethor_studio_v.Twin.Frames.{is_arm}
use aethor_studio_v.Twin.{has_key, as_list, pending_of}

apart_sym : (j k : Text) → text_eq j k ≡ false → text_eq k j ≡ false
apart_sym j k h = elim (Bool-cases (text_eq k j)) [
  | inl same ↦
      absurd
        (let e = sym (text_eq_refl j) ∙ ap (text_eq j) (sym (eq_of_text_eq k j same)) ∙ h in cc)
  | inr apart ↦ apart
]

module _ {A : Type 0} where
  abbrev pub DistinctKeys : List (Text × A) → Type 0
  DistinctKeys [] = Unit
  DistinctKeys ((k, v) ∷ m) = (has_key (lookup k m) ≡ false) × DistinctKeys m

  abbrev pub KeysOf : (Text → Bool) → List (Text × A) → Type 0
  KeysOf p [] = Unit
  KeysOf p ((k, v) ∷ m) = (p k ≡ true) × KeysOf p m

  pub length-insert :
      (k : Text) (v : A) (m : List (Text × A))
      → length (insert k v m) ≡ (if has_key (lookup k m) then length m else length m + 1)
  unfolding lookup insert
  length-insert k v [] = refl
  length-insert k v ((j, w) ∷ m) = elim (Bool-cases (text_eq j k)) [
    | inl same ↦ rw same refl
    | inr other ↦ rw other (ground (arith, length-insert k v m))
  ]

  pub KeysOf-insert :
      (p : Text → Bool) (k : Text) (v : A) (m : List (Text × A))
      → p k ≡ true
      → KeysOf p m
      → KeysOf p (insert k v m)
  unfolding insert
  KeysOf-insert p k v [] h all = (h, tt)
  KeysOf-insert p k v ((j, w) ∷ m) h (first, all) = elim (Bool-cases (text_eq j k)) [
    | inl same ↦ rw same (first, all)
    | inr other ↦ rw other (first, KeysOf-insert p k v m h all)
  ]

  has_key-insert :
      (k j : Text) (v : A) (m : List (Text × A))
      → text_eq k j ≡ false
      → has_key (lookup j m) ≡ false
      → has_key (lookup j (insert k v m)) ≡ false
  has_key-insert k j v m apart h = ap has_key (lookup-insert_ne k j v m apart) ∙ h

  pub DistinctKeys-insert :
      (k : Text) (v : A) (m : List (Text × A)) → DistinctKeys m → DistinctKeys (insert k v m)
  unfolding insert lookup
  DistinctKeys-insert k v [] d = (refl, tt)
  DistinctKeys-insert k v ((j, w) ∷ m) (fresh, d) = elim (Bool-cases (text_eq j k)) [
    | inl same ↦ rw same (fresh, d)
    | inr other ↦
        rw other (has_key-insert k j v m (apart_sym j k other) fresh, DistinctKeys-insert k v m d)
  ]

module _ {F : Type 0} where
  count_none :
      (k : Text) (m : List (Text × AethorArmMotorFrame F))
      → has_key (lookup k m) ≡ false
      → length (pending_of k m) ≡ 0
  count_none k m h = elim (Option-cases (lookup k m)) [
    | inl nothing ↦ ap (λ o. length (as_list o)) nothing
    | inr (f, found) ↦ absurd (let e = sym (ap has_key found) ∙ h in cc)
  ]

  -- Of a map with two possible keys, the entries of both are all.
  two_keys :
      (a b : Text) (m : List (Text × AethorArmMotorFrame F))
      → text_eq a b ≡ false
      → KeysOf (λ k. text_eq k a || text_eq k b) m
      → DistinctKeys m
      → length (pending_of a m) + length (pending_of b m) ≡ length m
  unfolding lookup
  two_keys a b [] apart keys d = refl
  two_keys a b ((k, v) ∷ m) apart (key, keys) (fresh, d) = elim (Bool-cases (text_eq k a)) [
    | inl is_a ↦
        rw (is_a, not_b is_a)
          (omega (
            arith,
            two_keys a b m apart keys d,
            count_none a m
                (subst (λ x. has_key (lookup x m) ≡ false) (eq_of_text_eq k a is_a) fresh),
          ))
    | inr not_a ↦
        rw (not_a, is_b not_a)
          (omega (
            arith,
            two_keys a b m apart keys d,
            count_none b m
                (subst (λ x. has_key (lookup x m) ≡ false) (eq_of_text_eq k b (is_b not_a)) fresh),
          ))
  ]
    where
      not_b : text_eq k a ≡ true → text_eq k b ≡ false
      not_b is_a = subst (λ x. text_eq x b ≡ false) (sym (eq_of_text_eq k a is_a)) apart

      is_b : text_eq k a ≡ false → text_eq k b ≡ true
      is_b not_a = sym (rw not_a refl) ∙ key

  -- What a commit hands over is all that waits.
  pub committed_all :
      (m : List (Text × AethorArmMotorFrame F))
      → KeysOf is_arm m
      → DistinctKeys m
      → length (pending_of (codes "left-arm") m ++ pending_of (codes "right-arm") m) ≡ length m
  committed_all m keys d =
      length-append (pending_of (codes "left-arm") m) (pending_of (codes "right-arm") m)
      ∙ two_keys (codes "left-arm") (codes "right-arm") m refl keys d
