-- ===== src/Plans/Compared.antt =====
-- The keys of plans are compared as an order is, the names last.
use jaull.Base.{
  ◌≡◌, refl, Bool, true, false, inl, inr, List, [], ◌∷◌, ◌++◌, map, length, ltb, lexicographic,
  IsOrder, lexicographic-IsOrder, arith, Bool-cases, if◌then◌else◌,
}
use jaull.Base.Int.{ℤ, pos}
use jaull.Ladder.{RecommendationPriority}
use jaull.Plans.{RankedPlan}
use jaull.Plans.Keys.{
  int_before, priority_axes, ranking_tie_key, ranking_key, KeyPart, part_before, sorts_before,
}
use jaull.Plans.Mirror.{int_before-IsOrder}

ltb-IsOrder : IsOrder ltb
ltb-IsOrder = ((λ a b h. ground arith), (λ a b c h h'. ground arith))

text_before-IsOrder : IsOrder (lexicographic ltb)
text_before-IsOrder = lexicographic-IsOrder ltb ltb-IsOrder

part_before_asym : (a b : KeyPart) → part_before a b ≡ true → part_before b a ≡ false
unfolding part_before
part_before_asym (KeyPart.number a) (KeyPart.number b) h = int_before-IsOrder.0 a b h
part_before_asym (KeyPart.number a) (KeyPart.text b) h = refl
part_before_asym (KeyPart.text a) (KeyPart.number b) h = cc
part_before_asym (KeyPart.text a) (KeyPart.text b) h = text_before-IsOrder.0 a b h

part_before_trans :
    (a b c : KeyPart) → part_before b a ≡ false → part_before c b ≡ false → part_before c a ≡ false
unfolding part_before
part_before_trans (KeyPart.number a) (KeyPart.number b) (KeyPart.number c) h h' =
    int_before-IsOrder.1 a b c h h'
part_before_trans (KeyPart.text a) (KeyPart.text b) (KeyPart.text c) h h' =
    text_before-IsOrder.1 a b c h h'
part_before_trans (KeyPart.number a) b (KeyPart.text c) h h' = refl
part_before_trans (KeyPart.text a) (KeyPart.number b) c h h' = cc
part_before_trans (KeyPart.number a) (KeyPart.text b) (KeyPart.number c) h h' = cc
part_before_trans (KeyPart.text a) (KeyPart.text b) (KeyPart.number c) h h' = cc

part_before-IsOrder : IsOrder part_before
part_before-IsOrder = (part_before_asym, part_before_trans)

pub sorts_before-IsOrder :
    (priority : RecommendationPriority) (commercial_use_required : Bool)
    → IsOrder (sorts_before priority commercial_use_required)
unfolding sorts_before
sorts_before-IsOrder priority commercial_use_required =
    let key = λ (item : RankedPlan). ranking_key item priority commercial_use_required in
    let (asym, trans) = lexicographic-IsOrder part_before part_before-IsOrder in
    ((λ a b. asym (key a) (key b)), (λ a b c. trans (key a) (key b) (key c)))

-- What the names follow decides first.
pub numbers_first :
    (xs ys : List ℤ) (us vs : List KeyPart)
    → length xs ≡ length ys
    → lexicographic part_before (map KeyPart.number xs ++ us) (map KeyPart.number ys ++ vs) ≡ false
    → lexicographic int_before xs ys ≡ false
unfolding part_before
numbers_first [] [] us vs h e = refl
numbers_first [] (y ∷ ys) us vs h e = absurd (omega arith)
numbers_first (x ∷ xs) [] us vs h e = refl
numbers_first (x ∷ xs) (y ∷ ys) us vs h e = elim (Bool-cases (int_before x y)) [
  | inl first ↦ absurd (ground arith)
  | inr later ↦ elim (Bool-cases (int_before y x)) [
    | inl after ↦ rw (later, after) refl
    | inr same ↦ rw (later, same) (numbers_first xs ys us vs (omega arith) (rw (later, same) at e))
  ]
]

pub length-ranking_tie_key :
    (a b : RankedPlan) (priority : RecommendationPriority) (commercial_use_required : Bool)
    → length (ranking_tie_key a priority commercial_use_required)
      ≡ length (ranking_tie_key b priority commercial_use_required)
unfolding ranking_tie_key priority_axes
length-ranking_tie_key a b RecommendationPriority.quality commercial_use_required = refl
length-ranking_tie_key a b RecommendationPriority.balanced commercial_use_required = refl
length-ranking_tie_key a b RecommendationPriority.speed commercial_use_required = refl
length-ranking_tie_key a b RecommendationPriority.memory commercial_use_required = refl

pub same_first :
    (viable : Bool) (xs ys : List ℤ)
    → lexicographic int_before xs ys ≡ false
    → lexicographic int_before
        (pos (if viable then 0 else 1) ∷ xs)
        (pos (if viable then 0 else 1) ∷ ys)
      ≡ false
unfolding int_before
same_first true xs ys h = h
same_first false xs ys h = h
