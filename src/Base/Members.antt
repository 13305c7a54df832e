-- ===== src/Base/Members.antt =====
-- Membership, for lists built by `++`, `map` and `choose`.
use mathlib.Core.Path.{◌≡◌, refl, sym, ap, ◌∙◌}
use mathlib.Core.Logic.{◌⊎◌, inl, inr}
use mathlib.Core.Option.{Option, none, some}
use mathlib.Core.List.{List, [], ◌∷◌, ◌++◌, map, Memᴰ}
use native.Mathlib.Omega.{arith}
use jaull.Base.Lists.{prepend, choose}

module _ {ℓ} {A : Type ℓ} where
  pub Mem-append_left : {a : A} {xs : List A} (ys : List A) → Memᴰ a xs → Memᴰ a (xs ++ ys)
  Mem-append_left ys (Memᴰ.head e) = Memᴰ.head e
  Mem-append_left ys (Memᴰ.tail t) = Memᴰ.tail (Mem-append_left ys t)

  pub Mem-append_right : {a : A} (xs : List A) {ys : List A} → Memᴰ a ys → Memᴰ a (xs ++ ys)
  Mem-append_right [] t = t
  Mem-append_right (x ∷ xs) t = Memᴰ.tail (Mem-append_right xs t)

module _ {κ} {B : Type κ} where
  prepend_here : {b : B} (o : Option B) (ys : List B) → o ≡ some b → Memᴰ b (prepend o ys)
  prepend_here none ys e = cc
  prepend_here (some c) ys e = Memᴰ.head (ground arith)

  prepend_later : {b : B} (o : Option B) {ys : List B} → Memᴰ b ys → Memᴰ b (prepend o ys)
  prepend_later none t = t
  prepend_later (some c) t = Memᴰ.tail t

  prepend_cases :
      {b : B} (o : Option B) (ys : List B) → Memᴰ b (prepend o ys) → (o ≡ some b) ⊎ Memᴰ b ys
  prepend_cases none ys t = inr t
  prepend_cases (some c) ys (Memᴰ.head e) = inl (ap some (sym e))
  prepend_cases (some c) ys (Memᴰ.tail t) = inr t

module _ {ℓ κ} {A : Type ℓ} {B : Type κ} where
  pub Mem-map : (f : A → B) (xs : List A) {a : A} {b : B} → Memᴰ a xs → b ≡ f a → Memᴰ b (map f xs)
  Mem-map f [] t h = elim t [ ]
  Mem-map f (x ∷ xs) (Memᴰ.head e) h = Memᴰ.head (h ∙ ap f e)
  Mem-map f (x ∷ xs) (Memᴰ.tail t) h = Memᴰ.tail (Mem-map f xs t h)

  pub Mem-choose :
      (f : A → Option B) (xs : List A) {a : A} {b : B}
      → Memᴰ a xs
      → f a ≡ some b
      → Memᴰ b (choose f xs)
  Mem-choose f [] t h = elim t [ ]
  Mem-choose f (x ∷ xs) (Memᴰ.head e) h = prepend_here (f x) (choose f xs) (ap f (sym e) ∙ h)
  Mem-choose f (x ∷ xs) (Memᴰ.tail t) h = prepend_later (f x) (Mem-choose f xs t h)

  pub choose-Mem :
      (f : A → Option B) (xs : List A) {b : B}
      → Memᴰ b (choose f xs)
      → (a : A) × Memᴰ a xs × (f a ≡ some b)
  choose-Mem f [] t = elim t [ ]
  choose-Mem f (x ∷ xs) t = elim (prepend_cases (f x) (choose f xs) t) [
    | inl e ↦ (x, Memᴰ.head refl, e)
    | inr later ↦ let (a, mem, e) = choose-Mem f xs later in (a, Memᴰ.tail mem, e)
  ]
