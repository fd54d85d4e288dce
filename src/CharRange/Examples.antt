-- ===== src/CharRange/Examples.antt =====
-- Two sets of code points that overlap.
use ggjs.Common.{
  ℕ, ◌≡◌, ◌^◌, ◌-◌, refl, Bool, false, List, [], ◌∷◌, leb, ltb, ◌&&◌, ◌||◌, not, length, arith,
}
use ggjs.CharRange.{
  CharRange, cr_op_sub, cr_init, cr_op, cr_compress, cr_union_interval, cr_invert, odd,
}
use ggjs.CharRange.Set.{covers, From, Between}
use ggjs.CharRange.Grant.{Granted}
use ggjs.CharRange.Operation.{
  member, Normal, cr_op-Normal, cr_union_interval-Normal, cr_invert-Normal,
}
use ggjs.CharRange.Unique.{cr_compress-Unique}

-- Memory for up to eight points.
abbrev eight : ℕ → Bool
eight n = leb n 8

abbrev few : List ℕ
few = 1 ∷ 4 ∷ 6 ∷ 8 ∷ []

abbrev more : List ℕ
more = 3 ∷ 7 ∷ []

abbrev range : CharRange
range = record { points = few; size = 4 }

-- The same code points, with an interval that is split and an empty one.
abbrev split_range : CharRange
split_range = record { points = 1 ∷ 3 ∷ 3 ∷ 4 ∷ 5 ∷ 5 ∷ 6 ∷ 8 ∷ []; size = 8 }

few-From : From 0 few
few-From = (omega arith, (omega arith, (omega arith, (omega arith, tt))))

few-Between : Between 0 few (2 ^ 32 - 1)
few-Between = (omega arith, (omega arith, (omega arith, (omega arith, omega arith))))

few-even : odd (length few) ≡ false
unfolding odd
few-even = refl

more-From : From 0 more
more-From = (omega arith, (omega arith, tt))

more-even : odd (length more) ≡ false
unfolding odd
more-even = refl

split-From : From 0 split_range.points
split-From = (
  omega arith,
  (
    omega arith,
    (omega arith, (omega arith, (omega arith, (omega arith, (omega arith, (omega arith, tt)))))),
  ),
)

split-even : odd (length split_range.points) ≡ false
unfolding odd
split-even = refl

cr_op-Normal_example :
    Granted eight
      (Normal λ c. member cr_op_sub (covers c few) (covers c more))
      (cr_op eight cr_init few more cr_op_sub)
cr_op-Normal_example = cr_op-Normal eight cr_op_sub few more few-From more-From few-even more-even

cr_union_interval-Normal_example :
    Granted eight
      (Normal λ c. covers c range.points || (leb 4 c && leb c 5))
      (cr_union_interval eight range 4 5)
cr_union_interval-Normal_example =
    cr_union_interval-Normal eight range 4 5 few-From few-even (omega arith) (omega arith)

cr_invert-Normal_example :
    Granted eight
      (Normal λ c. ltb c (2 ^ 32 - 1) && not (covers c range.points))
      (cr_invert eight range)
cr_invert-Normal_example = cr_invert-Normal eight range few-Between few-even

touching : (c : ℕ) → covers c range.points ≡ covers c split_range.points
unfolding covers
touching c = ground arith

cr_compress-Unique_example : (cr_compress range).points ≡ (cr_compress split_range).points
cr_compress-Unique_example =
    cr_compress-Unique range split_range few-From split-From few-even split-even touching
