-- ===== src/CharRange.antt =====
-- `CharRange` of quickJS/src/main/cpp/quickjs/libunicode.h and libunicode.c: a set of code points as
-- the sorted array of the points where the set begins and ends. The memory for the array is granted
-- or refused by a parameter, and `int` sizes do not overflow.
pub mod Set
pub mod Grant
pub mod Compress
pub mod Combine
pub mod Operation
mod Unique
mod Examples
use ggjs.Common.{
  ℕ, zero, suc, ◌+◌, ◌-◌, ◌*◌, ◌/◌, ◌%◌, ◌^◌, Bool, true, false, List, [], ◌∷◌, ◌++◌, length, max,
  ltb, leb, ◌==◌, ◌&&◌, ◌||◌, not, if◌then◌else◌, Option, none, some, xor,
}
use Prim.Native.Nat.{compare, Ordering}

-- `points` are the first `len` points of the array, `size` is what the array has room for.
pub record CharRange : Type 0 where
  pub points : List ℕ
  pub size : ℕ

-- The return values 0 and -1, with the range as it is left.
pub data Outcome : Type 0 where
  ok err : CharRange → Outcome

-- cr_init
abbrev pub cr_init : CharRange
cr_init = record { points = []; size = 0 }

pub data CharRangeOp : Type 0 where
  cr_op_union cr_op_inter cr_op_xor cr_op_sub : CharRangeOp

-- The `switch` of `cr_op`.
abbrev pub is_in : CharRangeOp → Bool → Bool → Bool
is_in cr_op_union a b = a || b
is_in cr_op_inter a b = a && b
is_in cr_op_xor a b = xor a b
is_in cr_op_sub a b = a && not b

-- n & 1
unfoldable pub odd : ℕ → Bool
odd zero = false
odd (suc n) = not (odd n)

abbrev pub on_ok : Outcome → (CharRange → Outcome) → Outcome
on_ok (ok cr) next = next cr
on_ok (err cr) next = err cr

-- What `cr_compress` writes, from the interval that its inner loop has reached, if it is in that
-- loop, and the points that follow.
pub merge : Option (ℕ × ℕ) → List ℕ → List ℕ
merge none [] = []
merge none (x ∷ []) = []
merge none (x ∷ y ∷ rest) = merge (if x == y then none else some (x, y)) rest
merge (some (s, e)) [] = s ∷ e ∷ []
merge (some (s, e)) (x ∷ []) = s ∷ e ∷ []
merge (some (s, e)) (x ∷ y ∷ rest) =
    let longer = merge (some (s, y)) rest in
    let next = s ∷ e ∷ merge (if x == y then none else some (x, y)) rest in
    if e == x then longer else next

pub cr_compress : CharRange → CharRange
cr_compress cr = record cr { points = merge none cr.points }

-- Whether `realloc_func` grants an array of so many points.
module _ (realloc : ℕ → Bool) where
  pub cr_realloc : CharRange → (size : ℕ) → Outcome
  cr_realloc cr size =
      if ltb cr.size size
      then (let new_size = max size (cr.size * 3 / 2) in
          if realloc new_size then ok (record cr { size = new_size }) else err cr)
      else ok cr

  pub cr_add_point : CharRange → ℕ → Outcome
  cr_add_point cr v =
      on_ok (if leb cr.size (length cr.points) then cr_realloc cr (length cr.points + 1) else ok cr)
        λ room. ok (record room { points = room.points ++ v ∷ [] })

  pub cr_add_interval : CharRange → (c1 c2 : ℕ) → Outcome
  cr_add_interval cr c1 c2 =
      on_ok
        (if ltb cr.size (length cr.points + 2) then cr_realloc cr (length cr.points + 2) else ok cr)
        λ room. ok (record room { points = room.points ++ c1 ∷ c2 ∷ [] })

  pub cr_copy : CharRange → CharRange → Outcome
  cr_copy cr cr1 =
      on_ok (cr_realloc cr (length cr1.points)) λ room. ok (record room { points = cr1.points })

  -- The end of a round of `cr_op`: the point is added if the status changes.
  pub note_point : CharRangeOp → (a_idx b_idx v : ℕ) → CharRange → Outcome
  note_point op a_idx b_idx v cr =
      if xor (is_in op (odd a_idx) (odd b_idx)) (odd (length cr.points))
      then cr_add_point cr v
      else ok cr

  -- The rounds of `cr_op`; the lists are the points from `a_idx` and from `b_idx` on.
  pub op_loop : CharRangeOp → (a_idx b_idx : ℕ) → (a b : List ℕ) → CharRange → Outcome
  op_loop op i j [] [] cr = ok cr
  op_loop op i j (v ∷ a) [] cr =
      on_ok (note_point op (suc i) j v cr) λ cr'. op_loop op (suc i) j a [] cr'
  op_loop op i j [] (v ∷ b) cr =
      on_ok (note_point op i (suc j) v cr) λ cr'. op_loop op i (suc j) [] b cr'
  op_loop op i j (v ∷ a) (w ∷ b) cr = elim (compare v w) [
    | Ordering.lt ↦ on_ok (note_point op (suc i) j v cr) λ cr'. op_loop op (suc i) j a (w ∷ b) cr'
    | Ordering.eq ↦
        on_ok (note_point op (suc i) (suc j) v cr) λ cr'. op_loop op (suc i) (suc j) a b cr'
    | Ordering.gt ↦ on_ok (note_point op i (suc j) w cr) λ cr'. op_loop op i (suc j) (v ∷ a) b cr'
  ]

  pub cr_op : CharRange → (a b : List ℕ) → CharRangeOp → Outcome
  cr_op cr a b op = on_ok (op_loop op 0 0 a b cr) λ done. ok (cr_compress done)

  -- `cr` starts anew, and its old points are the first operand.
  pub cr_op1 : CharRange → (b : List ℕ) → CharRangeOp → Outcome
  cr_op1 cr b op = cr_op cr_init cr.points b op

  -- c2 + 1 is a `uint32_t`.
  pub cr_union_interval : CharRange → (c1 c2 : ℕ) → Outcome
  cr_union_interval cr c1 c2 = cr_op1 cr (c1 ∷ ((c2 + 1) % 2 ^ 32) ∷ []) cr_op_union

  pub cr_invert : CharRange → Outcome
  cr_invert cr =
      on_ok (cr_realloc cr (length cr.points + 2))
        λ room. ok (cr_compress (record room { points = 0 ∷ (room.points ++ (2 ^ 32 - 1) ∷ []) }))
