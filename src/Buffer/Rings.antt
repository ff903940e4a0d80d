-- ===== src/Buffer/Rings.antt =====
-- A ring of slots read as a list: what a write and a step of the start do to it.
use native.Mathlib.Decide.{dec_lt}
use native.Mathlib.Nat.{mod-eq_of_lt, mod-eq-sub-mod, mod-add-mod}
use aethor_studio_v.Prelude.{
  ℕ, zero, suc, ◌+◌, ◌-◌, ◌%◌, ◌<◌, ◌≤◌, Option, List, [], ◌∷◌, ◌++◌, length, set, ◌≡◌, ◌≢◌, refl,
  ap, ◌∙◌, arith, ◌⊎◌, inl, inr,
}
use aethor_studio_v.Buffer.{slot_at}

module _ {ℓ} {A : Type ℓ} where
  -- `f 0, …, f (n - 1)`
  abbrev pub tabulate : (ℕ → A) → ℕ → List A
  tabulate f zero = []
  tabulate f (suc n) = f 0 ∷ tabulate (λ k. f (suc k)) n

  pub tabulate-ext :
      (f g : ℕ → A) (n : ℕ) → ((k : ℕ) → k < n → f k ≡ g k) → tabulate f n ≡ tabulate g n
  tabulate-ext f g zero h = refl
  tabulate-ext f g (suc n) h = cc (
    h 0 (omega arith),
    tabulate-ext (λ k. f (suc k)) (λ k. g (suc k)) n (λ k lt. h (suc k) (omega arith)),
  )

  pub tabulate-snoc : (f : ℕ → A) (n : ℕ) → tabulate f (suc n) ≡ tabulate f n ++ (f n ∷ [])
  tabulate-snoc f zero = refl
  tabulate-snoc f (suc n) = ap (λ l. f 0 ∷ l) (tabulate-snoc (λ k. f (suc k)) n)

module _ {ℓ} {A : Type ℓ} where
  pub slot_at-set_self :
      (xs : List (Option A)) (i : ℕ) (v : Option A) → i < length xs → slot_at (set xs i v) i ≡ v
  slot_at-set_self [] i v h = absurd (omega arith)
  slot_at-set_self (x ∷ xs) zero v h = refl
  slot_at-set_self (x ∷ xs) (suc i) v h = slot_at-set_self xs i v (omega arith)

  pub slot_at-set_ne :
      (xs : List (Option A)) (i j : ℕ) (v : Option A)
      → i ≢ j
      → slot_at (set xs i v) j ≡ slot_at xs j
  slot_at-set_ne [] i j v h = refl
  slot_at-set_ne (x ∷ xs) zero zero v h = absurd (h refl)
  slot_at-set_ne (x ∷ xs) zero (suc j) v h = refl
  slot_at-set_ne (x ∷ xs) (suc i) zero v h = refl
  slot_at-set_ne (x ∷ xs) (suc i) (suc j) v h = slot_at-set_ne xs i j v (λ e. h (ap suc e))

-- Where an offset lies: before the end of the array, or past it and round.
place :
    (max start k : ℕ)
    → start < max
    → k < max
    → ((start + k < max) × ((start + k) % max ≡ start + k))
      ⊎ ((max ≤ start + k) × ((start + k) % max ≡ start + k - max))
place max start k hs hk = elim (dec_lt (start + k) max) [
  | yes p ↦ inl (p, mod-eq_of_lt p)
  | no p ↦ inr (
    omega arith,
    mod-eq-sub-mod {n = start + k} {m = max} (omega arith)
        ∙ mod-eq_of_lt {n = start + k - max} {m = max} (omega arith),
  )
]

-- Two offsets below the size of a ring are two places of it.
pub offsets-ne :
    (max start i j : ℕ) → start < max → i < j → j < max → (start + i) % max ≢ (start + j) % max
offsets-ne max start i j hs lt hj =
    omega (arith, place max start i hs (omega arith), place max start j hs hj)

-- A step of the start is a step of the offset.
pub offset-step : (max start k : ℕ) → ((start + 1) % max + k) % max ≡ (start + suc k) % max
offset-step max start k = rw mod-add-mod (ap (λ n. n % max) (omega arith))

-- The place of an offset lies in the array.
pub offset-lt : (max start k : ℕ) → start < max → k < max → (start + k) % max < max
offset-lt max start k hs hk = omega (arith, place max start k hs hk)

pub start-place : (max start : ℕ) → start < max → (start + 0) % max ≡ start
start-place max start hs = omega (arith, place max start 0 hs (omega arith))

-- No later offset comes back to the start.
pub start-ne : (max start k : ℕ) → start < max → suc k < max → start ≢ (start + suc k) % max
start-ne max start k hs hk = omega (arith, place max start (suc k) hs hk)

-- A whole round comes back to the start.
pub round-place : (max start k : ℕ) → start < max → k ≡ max → (start + k) % max ≡ start
round-place max start k hs e =
    mod-eq-sub-mod {n = start + k} {m = max} (omega arith)
    ∙ ap (λ n. n % max) {y = start} (omega arith)
    ∙ mod-eq_of_lt hs
