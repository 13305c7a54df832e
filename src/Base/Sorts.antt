-- ===== src/Base/Sorts.antt =====
-- The stable sort by an order, and lists whose elements are related pair by pair.
use Prim.Native.Nat.{ℕ, zero, suc}
use mathlib.Core.Path.{◌≡◌, refl, ap}
use mathlib.Core.Logic.{inl, inr}
use mathlib.Core.Bool.{Bool, true, false}
use mathlib.Core.List.{List, [], ◌∷◌, ◌++◌, Permᴰ}
use mathlib.Core.List.Permᴰ as Perm
use jaull.Base.Tests.{Bool-cases, if◌then◌else◌}
use jaull.Base.Lists.{All, keep, take}
use jaull.Base.Orders.{IsOrder, Pairwise}

module _ {ℓ} {A : Type ℓ} where
  -- `sorted`, which is stable: an element goes before all that do not precede it.
  abbrev pub insert_by : (A → A → Bool) → A → List A → List A
  insert_by less x [] = x ∷ []
  insert_by less x (y ∷ ys) = if less y x then y ∷ insert_by less x ys else x ∷ y ∷ ys

  abbrev pub sort_by : (A → A → Bool) → List A → List A
  sort_by less [] = []
  sort_by less (x ∷ xs) = insert_by less x (sort_by less xs)

  pub keep-append : (p : A → Bool) (xs ys : List A) → keep p (xs ++ ys) ≡ keep p xs ++ keep p ys
  keep-append p [] ys = refl
  keep-append p (x ∷ xs) ys = elim (Bool-cases (p x)) [
    | inl kept ↦ rw (kept) (ap (λ zs. x ∷ zs) (keep-append p xs ys))
    | inr dropped ↦ rw (dropped) (keep-append p xs ys)
  ]

  pub keep-none : (p : A → Bool) (xs : List A) → All (λ x. p x ≡ false) xs → keep p xs ≡ []
  keep-none p [] h = refl
  keep-none p (x ∷ xs) (here, later) = rw (here) (keep-none p xs later)

  module _ {κ} (P : A → Type κ) where
    pub All-keep : (p : A → Bool) (xs : List A) → All P xs → All P (keep p xs)
    All-keep p [] h = h
    All-keep p (x ∷ xs) (here, later) = elim (Bool-cases (p x)) [
      | inl kept ↦ rw (kept) (here, All-keep p xs later)
      | inr dropped ↦ rw (dropped) (All-keep p xs later)
    ]

    pub All-take : (n : ℕ) (xs : List A) → All P xs → All P (take n xs)
    All-take zero xs h = tt
    All-take (suc n) [] h = tt
    All-take (suc n) (x ∷ xs) (here, later) = (here, All-take n xs later)

    pub All-append : (xs ys : List A) → All P xs → All P ys → All P (xs ++ ys)
    All-append [] ys h h' = h'
    All-append (x ∷ xs) ys (here, later) h' = (here, All-append xs ys later h')

    pub All-of : ((x : A) → P x) → (xs : List A) → All P xs
    All-of h [] = tt
    All-of h (x ∷ xs) = (h x, All-of h xs)

    pub keep-All : (p : A → Bool) → ((x : A) → p x ≡ true → P x) → (xs : List A) → All P (keep p xs)
    keep-All p h [] = tt
    keep-All p h (x ∷ xs) = elim (Bool-cases (p x)) [
      | inl kept ↦ rw (kept) (h x kept, keep-All p h xs)
      | inr dropped ↦ rw (dropped) (keep-All p h xs)
    ]

    pub All-map {μ} : {Q : A → Type μ} → ((x : A) → P x → Q x) → (xs : List A) → All P xs → All Q xs
    All-map h [] all = tt
    All-map h (x ∷ xs) (here, later) = (h x here, All-map h xs later)

  module _ {κ} (R : A → A → Type κ) where
    pub Pairwise-keep : (p : A → Bool) (xs : List A) → Pairwise R xs → Pairwise R (keep p xs)
    Pairwise-keep p [] h = h
    Pairwise-keep p (x ∷ xs) (here, later) = elim (Bool-cases (p x)) [
      | inl kept ↦ rw (kept) (All-keep (R x) p xs here, Pairwise-keep p xs later)
      | inr dropped ↦ rw (dropped) (Pairwise-keep p xs later)
    ]

    pub Pairwise-take : (n : ℕ) (xs : List A) → Pairwise R xs → Pairwise R (take n xs)
    Pairwise-take zero xs h = tt
    Pairwise-take (suc n) [] h = tt
    Pairwise-take (suc n) (x ∷ xs) (here, later) =
        (All-take (R x) n xs here, Pairwise-take n xs later)

    pub Pairwise-append :
        (xs ys : List A)
        → Pairwise R xs
        → Pairwise R ys
        → All (λ x. All (R x) ys) xs
        → Pairwise R (xs ++ ys)
    Pairwise-append [] ys h h' cross = h'
    Pairwise-append (x ∷ xs) ys (here, later) h' (across, cross) =
        (All-append (R x) xs ys here across, Pairwise-append xs ys later h' cross)

  module _ (less : A → A → Bool) where
    insert_by-Permᴰ : (x : A) (xs : List A) → Permᴰ (x ∷ xs) (insert_by less x xs)
    insert_by-Permᴰ x [] = Perm.refl (x ∷ [])
    insert_by-Permᴰ x (y ∷ ys) = elim (Bool-cases (less y x)) [
      | inl before ↦
          rw (before) (Permᴰ.trans (Permᴰ.swap refl refl) (Permᴰ.cons refl (insert_by-Permᴰ x ys)))
      | inr after ↦ rw (after) (Perm.refl (x ∷ y ∷ ys))
    ]

    pub sort_by-Permᴰ : (xs : List A) → Permᴰ xs (sort_by less xs)
    sort_by-Permᴰ [] = Permᴰ.nil
    sort_by-Permᴰ (x ∷ xs) =
        Permᴰ.trans (Permᴰ.cons refl (sort_by-Permᴰ xs)) (insert_by-Permᴰ x (sort_by less xs))

    insert_by-All {κ} :
        (P : A → Type κ) (x : A) (xs : List A) → P x → All P xs → All P (insert_by less x xs)
    insert_by-All P x [] h all = (h, all)
    insert_by-All P x (y ∷ ys) h (here, later) = elim (Bool-cases (less y x)) [
      | inl before ↦ rw (before) (here, insert_by-All P x ys h later)
      | inr after ↦ rw (after) (h, (here, later))
    ]

    insert_by-Pairwise :
        IsOrder less
        → (x : A) (xs : List A) → Pairwise (λ a b. less b a ≡ false) xs
        → Pairwise (λ a b. less b a ≡ false) (insert_by less x xs)
    insert_by-Pairwise order x [] h = (tt, tt)
    insert_by-Pairwise order x (y ∷ ys) (here, later) =
        let (asym, trans) = order in
        elim (Bool-cases (less y x)) [
          | inl before ↦ rw (before) (
            insert_by-All (λ b. less b y ≡ false) x ys (asym y x before) here,
            insert_by-Pairwise order x ys later,
          )
          | inr after ↦ rw (after) (
            (after, All-map (λ b. less b y ≡ false) (λ z h. trans x y z after h) ys here),
            (here, later),
          )
        ]

    -- No element of the sorted list precedes one before it.
    pub sort_by-Pairwise :
        IsOrder less → (xs : List A) → Pairwise (λ a b. less b a ≡ false) (sort_by less xs)
    sort_by-Pairwise order [] = tt
    sort_by-Pairwise order (x ∷ xs) =
        insert_by-Pairwise order x (sort_by less xs) (sort_by-Pairwise order xs)
