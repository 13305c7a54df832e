-- ===== src/Base/Permutes.antt =====
-- Filters, tests and prefixes of a list, up to the order of its elements.
use mathlib.Core.Path.{◌≡◌, refl, sym, ap, ◌∙◌}
use mathlib.Core.Logic.{inl, inr}
use mathlib.Core.Bool.{Bool, true, not}
use mathlib.Core.List.{List, [], ◌∷◌, ◌++◌, Permᴰ}
use mathlib.Core.List.Permᴰ as Perm
use native.Mathlib.Omega.{arith}
use jaull.Base.Tests.{Bool-cases}
use jaull.Base.Lists.{keep, any}

module _ {ℓ} {A : Type ℓ} where
  pub keep-Permᴰ : (p : A → Bool) {xs ys : List A} → Permᴰ xs ys → Permᴰ (keep p xs) (keep p ys)
  keep-Permᴰ p Permᴰ.nil = Permᴰ.nil
  keep-Permᴰ p (Permᴰ.cons {a = a} {b = b} e perm) = elim (Bool-cases (p a)) [
    | inl kept ↦ rw (kept, sym (ap p e) ∙ kept) (Permᴰ.cons e (keep-Permᴰ p perm))
    | inr dropped ↦ rw (dropped, sym (ap p e) ∙ dropped) (keep-Permᴰ p perm)
  ]
  keep-Permᴰ p (Permᴰ.swap {a = a} {b = b} {a' = a'} {b' = b'} {l = l} e e') =
      elim (Bool-cases (p a)) [
        | inl kept ↦ elim (Bool-cases (p b)) [
          | inl kept' ↦
              rw (kept, kept', sym (ap p e) ∙ kept, sym (ap p e') ∙ kept') (Permᴰ.swap e e')
          | inr dropped' ↦
              rw (kept, dropped', sym (ap p e) ∙ kept, sym (ap p e') ∙ dropped')
                (Permᴰ.cons e (Perm.refl (keep p l)))
        ]
        | inr dropped ↦ elim (Bool-cases (p b)) [
          | inl kept' ↦
              rw (dropped, kept', sym (ap p e) ∙ dropped, sym (ap p e') ∙ kept')
                (Permᴰ.cons e' (Perm.refl (keep p l)))
          | inr dropped' ↦
              rw (dropped, dropped', sym (ap p e) ∙ dropped, sym (ap p e') ∙ dropped')
                (Perm.refl (keep p l))
        ]
      ]
  keep-Permᴰ p (Permᴰ.trans l r) = Permᴰ.trans (keep-Permᴰ p l) (keep-Permᴰ p r)

  pub split-Permᴰ : (p : A → Bool) (xs : List A) → Permᴰ xs (keep p xs ++ keep (λ x. not (p x)) xs)
  split-Permᴰ p [] = Permᴰ.nil
  split-Permᴰ p (x ∷ xs) = elim (Bool-cases (p x)) [
    | inl kept ↦ rw (kept) (Permᴰ.cons refl (split-Permᴰ p xs))
    | inr dropped ↦ rw (dropped) (
        Permᴰ.trans (Permᴰ.cons refl (split-Permᴰ p xs))
          (Perm.symm (Perm.middle x (keep p xs) (keep (λ y. not (p y)) xs))))
  ]

  pub any-Permᴰ : (p : A → Bool) {xs ys : List A} → Permᴰ xs ys → any p xs ≡ true → any p ys ≡ true
  any-Permᴰ p Permᴰ.nil h = h
  any-Permᴰ p (Permᴰ.cons {a = a} {b = b} e perm) h = elim (Bool-cases (p a)) [
    | inl here ↦ rw (sym (ap p e) ∙ here) refl
    | inr later ↦ let rest = any-Permᴰ p perm (rw (later) at h) in rw (sym (ap p e) ∙ later) rest
  ]
  any-Permᴰ p (Permᴰ.swap {a = a} {b = b} {l = l} e e') h =
      let pa = ap p e in let pb = ap p e' in ground (arith, pa, pb)
  any-Permᴰ p (Permᴰ.trans l r) h = any-Permᴰ p r (any-Permᴰ p l h)

  pub any-keep :
      (p q : A → Bool) (xs : List A)
      → ((x : A) → q x ≡ true → p x ≡ true)
      → any q xs ≡ true
      → any q (keep p xs) ≡ true
  any-keep p q [] h e = e
  any-keep p q (x ∷ xs) h e = elim (Bool-cases (q x)) [
    | inl here ↦ rw (h x here, here) refl
    | inr later ↦
        let rest = any-keep p q xs h (rw (later) at e) in
        elim (Bool-cases (p x)) [
          | inl kept ↦ rw (kept, later) rest
          | inr dropped ↦ rw (dropped) rest
        ]
  ]
