-- ===== src/Base/Slices.antt =====
-- Slices of a list: what `take` and `drop` give of a longer list.
use Prim.Native.Nat.{ℕ, zero, suc, ◌≤◌, ◌<◌, min}
use mathlib.Core.Path.{◌≡◌, refl, ap}
use mathlib.Core.Logic.{◌⊎◌, inl, inr}
use mathlib.Core.Option.{Option, none, some}
use mathlib.Core.List.{List, [], ◌∷◌, ◌++◌}
use native.Mathlib.Omega.{arith}
use jaull.Base.Lists.{length, take, drop}

module _ {ℓ} {A : Type ℓ} where
  pub take-drop : (n : ℕ) (xs : List A) → take n xs ++ drop n xs ≡ xs
  take-drop zero xs = refl
  take-drop (suc n) [] = refl
  take-drop (suc n) (x ∷ xs) = ap (λ ys. x ∷ ys) (take-drop n xs)

  pub take-append : (n : ℕ) (xs ys : List A) → n ≤ length xs → take n (xs ++ ys) ≡ take n xs
  take-append zero xs ys h = refl
  take-append (suc n) [] ys h = absurd (omega arith)
  take-append (suc n) (x ∷ xs) ys h = ap (λ zs. x ∷ zs) (take-append n xs ys (omega arith))

  pub drop-append : (n : ℕ) (xs ys : List A) → n ≤ length xs → drop n (xs ++ ys) ≡ drop n xs ++ ys
  drop-append zero xs ys h = refl
  drop-append (suc n) [] ys h = absurd (omega arith)
  drop-append (suc n) (x ∷ xs) ys h = drop-append n xs ys (omega arith)

  pub take-length : (xs ys : List A) → take (length xs) (xs ++ ys) ≡ xs
  take-length [] ys = refl
  take-length (x ∷ xs) ys = ap (λ zs. x ∷ zs) (take-length xs ys)

  pub drop-length : (xs ys : List A) → drop (length xs) (xs ++ ys) ≡ ys
  drop-length [] ys = refl
  drop-length (x ∷ xs) ys = drop-length xs ys

  pub length-take : (n : ℕ) (xs : List A) → length (take n xs) ≡ min n (length xs)
  length-take zero xs = ground arith
  length-take (suc n) [] = ground arith
  length-take (suc n) (x ∷ xs) = ground (arith, length-take n xs)

  pub length-take_exact : (n : ℕ) (xs : List A) → n ≤ length xs → length (take n xs) ≡ n
  length-take_exact zero xs h = refl
  length-take_exact (suc n) [] h = absurd (omega arith)
  length-take_exact (suc n) (x ∷ xs) h = omega (arith, length-take_exact n xs (omega arith))

-- A list that a limit divides: nothing is cut without a limit, and with one only once as many items
-- as it allows have been taken.
abbrev pub IsCut {ℓ} : {A : Type ℓ} → Option ℕ → List A → List A → Type ℓ
IsCut none shown cut = cut ≡ []
IsCut (some n) shown cut = (length shown ≡ n) ⊎ (length shown < n) × (cut ≡ [])

pub take-IsCut {ℓ} : {A : Type ℓ} (n : ℕ) (xs : List A) → IsCut (some n) (take n xs) (drop n xs)
take-IsCut zero xs = inl refl
take-IsCut (suc n) [] = inr (omega arith, refl)
take-IsCut (suc n) (x ∷ xs) = elim (take-IsCut n xs) [
  | inl full ↦ inl (ap (λ m. suc m) full)
  | inr (few, nothing) ↦ inr (omega (arith, few), nothing)
]
