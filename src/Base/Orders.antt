-- ===== src/Base/Orders.antt =====
-- Strict orders as Boolean tests, their lexicographic extension, and the stable sort by such a test.
use mathlib.Core.Path.{◌≡◌, refl}
use mathlib.Core.Logic.{inl, inr}
use mathlib.Core.Bool.{Bool, true, false, not, ◌&&◌, ◌||◌}
use mathlib.Core.List.{List, [], ◌∷◌}
use native.Mathlib.Omega.{arith}
use jaull.Base.Tests.{Bool-cases}
use jaull.Base.Lists.{All}

module _ {ℓ} {A : Type ℓ} where
  -- A strict weak order: `less a b` and its converse exclude each other, and "not after" is
  -- transitive.
  abbrev pub IsOrder : (A → A → Bool) → Type ℓ
  IsOrder less =
      ((a b : A) → less a b ≡ true → less b a ≡ false)
      × ((a b c : A) → less b a ≡ false → less c b ≡ false → less c a ≡ false)

  -- Every element is related to all that follow it; it computes to a tuple.
  abbrev pub Pairwise {κ} : (A → A → Type κ) → List A → Type (ℓ ⊔ κ)
  Pairwise R [] = Unit
  Pairwise R (x ∷ xs) = All (R x) xs × Pairwise R xs

  -- Python's order on tuples and on texts: the first place where the two differ decides.
  abbrev pub lexicographic : (A → A → Bool) → List A → List A → Bool
  lexicographic less _ [] = false
  lexicographic less [] (_ ∷ _) = true
  lexicographic less (x ∷ xs) (y ∷ ys) = less x y || (not (less y x) && lexicographic less xs ys)

or_left : (a b : Bool) → (a || b) ≡ false → a ≡ false
or_left a b h = ground arith

module _ {ℓ} {A : Type ℓ} (less : A → A → Bool) where
  lexicographic_asym :
      IsOrder less
      → (xs ys : List A) → lexicographic less xs ys ≡ true
      → lexicographic less ys xs ≡ false
  lexicographic_asym order [] [] h = cc
  lexicographic_asym order [] (y ∷ ys) h = refl
  lexicographic_asym order (x ∷ xs) [] h = cc
  lexicographic_asym order (x ∷ xs) (y ∷ ys) h =
      let (asym, _) = order in
      elim (Bool-cases (less x y)) [
        | inl first ↦ rw (asym x y first, first) refl
        | inr other ↦ elim (Bool-cases (less y x)) [
          | inl after ↦ absurd (ground arith)
          | inr same ↦ rw (same, other) (lexicographic_asym order xs ys (rw (same, other) at h))
        ]
      ]

  lexicographic_trans :
      IsOrder less
      → (xs ys zs : List A) → lexicographic less ys xs ≡ false
      → lexicographic less zs ys ≡ false
      → lexicographic less zs xs ≡ false
  lexicographic_trans order [] ys [] h h' = refl
  lexicographic_trans order (x ∷ xs) [] [] h h' = cc
  lexicographic_trans order (x ∷ xs) (y ∷ ys) [] h h' = cc
  lexicographic_trans order [] ys (z ∷ zs) h h' = refl
  lexicographic_trans order (x ∷ xs) [] (z ∷ zs) h h' = cc
  lexicographic_trans order (x ∷ xs) (y ∷ ys) (z ∷ zs) h h' =
      let (asym, trans) = order in
      let yx : less y x ≡ false = or_left (less y x) _ h in
      let zy : less z y ≡ false = or_left (less z y) _ h' in
      let zx = trans x y z yx zy in
      elim (Bool-cases (less x z)) [
        | inl after ↦ rw (zx, after) refl
        | inr same ↦
            let xy = trans y z x zy same in
            let yz = trans z x y same yx in
            rw (zx, same)
              (lexicographic_trans order xs ys zs (rw (yx, xy) at h) (rw (zy, yz) at h'))
      ]

  pub lexicographic-IsOrder : IsOrder less → IsOrder {A = List A} (lexicographic less)
  lexicographic-IsOrder order = (lexicographic_asym order, lexicographic_trans order)
