-- ===== src/Lifecycle/Numbers.antt =====
-- Numbers of the calls that have not returned.
use mathlib.Core.Path.{subst}
use aethor_studio_v.Prelude.{
  ℕ, zero, suc, ◌+◌, Option, some, List, [], ◌∷◌, ◌++◌, length, get_elem?, set, ◌≡◌, arith,
}
use aethor_studio_v.Lifecycle.{Stage, executing, refreshing, finished}

-- A call that has not returned has the number `n`.
abbrev pub HasNumber : ℕ → Stage → Type 0
HasNumber n (executing intent label k) = k ≡ n
HasNumber n (refreshing result k) = k ≡ n
HasNumber n (finished outcome) = Unit

abbrev pub Numbered : ℕ → List Stage → Type 0
Numbered n [] = Unit
Numbered n (stage ∷ l) = HasNumber n stage × Numbered (suc n) l

pub Numbered-append :
    (n : ℕ) (l : List Stage) (stage : Stage)
    → Numbered n l
    → HasNumber (n + length l) stage
    → Numbered n (l ++ (stage ∷ []))
Numbered-append n [] stage h here = (cast_number n stage here, tt)
  where
    cast_number : (n : ℕ) (stage : Stage) → HasNumber (n + 0) stage → HasNumber n stage
    cast_number n (executing intent label k) e = omega (arith, e)
    cast_number n (refreshing result k) e = omega (arith, e)
    cast_number n (finished outcome) e = tt
Numbered-append n (x ∷ l) stage (hx, h) here =
    (hx, Numbered-append (suc n) l stage h (shift n (length l) stage here))
  where
    shift : (n k : ℕ) (stage : Stage) → HasNumber (n + suc k) stage → HasNumber (suc n + k) stage
    shift n k (executing intent label m) e = omega (arith, e)
    shift n k (refreshing result m) e = omega (arith, e)
    shift n k (finished outcome) e = tt

same_stage : (x y : Stage) → ◌≡◌ {A = Option Stage} (some x) (some y) → x ≡ y
same_stage x y h = cc

pub Numbered-set :
    (n : ℕ) (l : List Stage) (i : ℕ) (before after : Stage)
    → get_elem? l i ≡ some before
    → ((k : ℕ) → HasNumber k before → HasNumber k after)
    → Numbered n l
    → Numbered n (set l i after)
Numbered-set n [] i before after at keep h = h
Numbered-set n (x ∷ l) zero before after at keep (hx, h) =
    (keep n (subst (HasNumber n) (same_stage x before at) hx), h)
Numbered-set n (x ∷ l) (suc i) before after at keep (hx, h) =
    (hx, Numbered-set (suc n) l i before after at keep h)

pub Numbered-get_elem? :
    (n : ℕ) (l : List Stage) (i : ℕ) (stage : Stage)
    → get_elem? l i ≡ some stage
    → Numbered n l
    → HasNumber (n + i) stage
Numbered-get_elem? n [] i stage at h = absurd cc
Numbered-get_elem? n (x ∷ l) zero stage at (hx, h) =
    subst (HasNumber (n + 0)) (same_stage x stage at) (subst (λ m. HasNumber m x) (omega arith) hx)
Numbered-get_elem? n (x ∷ l) (suc i) stage at (hx, h) =
    subst (λ m. HasNumber m stage) (omega arith) (Numbered-get_elem? (suc n) l i stage at h)
