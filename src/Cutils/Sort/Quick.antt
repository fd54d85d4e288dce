-- ===== src/Cutils/Sort/Quick.antt =====
-- `rqsort` of cutils.c: quicksort in three parts with a stack of segments, `heapsortx` below a depth
-- of 50 and insertion for six elements or less. Indices are from the segment's first element on.
pub mod Insertion
pub mod Partition
pub mod Scan
pub mod Segments
pub mod Rounds
pub mod Block
pub mod Loop
use ggjs.Common.{
  ℕ, zero, suc, ◌+◌, ◌-◌, ◌*◌, ◌/◌, List, [], ◌∷◌, length, ltb, leb, min, if◌then◌else◌,
}
use ggjs.Common.Int.{ℤ}
use ggjs.Common.Run.{Run, ok, fault, out_of_fuel, ◌>>=◌}
use ggjs.Cutils.Sort.{is_positive, is_negative, is_zero, swap, swap_block, cmp_at, heapsortx, med3}

-- The array and the ends of the four parts of a segment: `lt`, `i` (`pi`), `j` (`pj`) and `gt`.
pub record Parts {ℓ} (A : Type ℓ) : Type ℓ where
  pub array : List A
  pub lt : ℕ
  pub i : ℕ
  pub j : ℕ
  pub gt : ℕ

-- An entry of the stack.
pub record Segment : Type 0 where
  pub base : ℕ
  pub count : ℕ
  pub depth : ℕ

-- The array with the stack, its top first.
pub record Sorting {ℓ} (A : Type ℓ) : Type ℓ where
  pub array : List A
  pub stack : List Segment

-- The stack has room for 50 entries.
pub push : Segment → List Segment → Run (List Segment)
push e stack = if ltb (length stack) 50 then ok (e ∷ stack) else fault

module _ {ℓ} {A : Type ℓ} (cmp : A → A → ℤ) where
  -- The first inner loop: at `i`, an element that is not greater than the pivot.
  pub take_up : (p : ℕ) → ℤ → Parts A → Run (Parts A)
  take_up p c s =
      let same : Run (Parts A) = do
        b ← swap s.array (p + s.lt) (p + s.i)
        ok (record s { array = b; lt = s.lt + 1; i = s.i + 1 })
      in if is_zero c then same else ok (record s { i = s.i + 1 })

  pub scan_up : (fuel p : ℕ) → Parts A → Run (Parts A)
  scan_up zero p s = out_of_fuel
  scan_up (suc fuel) p s =
      let look : Run (Parts A) = do
        c ← cmp_at cmp s.array p (p + s.i)
        let rest : Run (Parts A) = take_up p c s >>= scan_up fuel p
        if is_negative c then ok s else rest
      in if ltb s.i s.j then look else ok s

  -- The second inner loop, which goes down: at `j`, an element that is not less than the pivot.
  pub take_down : (p : ℕ) → ℤ → Parts A → Run (Parts A)
  take_down p c s =
      let same : Run (Parts A) = do
        b ← swap s.array (p + (s.gt - 1)) (p + s.j)
        ok (record s { array = b; gt = s.gt - 1 })
      in if is_zero c then same else ok s

  pub scan_down : (p j : ℕ) → Parts A → Run (Parts A)
  scan_down p zero s = fault
  scan_down p (suc j) s =
      let t : Parts A = record s { j = j } in
      let look : Run (Parts A) = do
        c ← cmp_at cmp s.array p (p + j)
        let rest : Run (Parts A) = take_down p c t >>= scan_down p j
        if is_positive c then ok t else rest
      in if ltb s.i j then look else ok t

  pub split : (fuel p : ℕ) → Parts A → Run (Parts A)
  split zero p s = out_of_fuel
  split (suc fuel) p s = do
    t ← scan_up (s.j - s.i + 1) p s
    u ← scan_down p t.j t
    let next : Run (Parts A) = do
      b ← swap u.array (p + u.i) (p + u.j)
      split fuel p (record u { array = b; i = u.i + 1 })
    if leb u.j u.i then ok u else next

  -- The pivot goes to the start, the loop runs, and the elements that are identical to it go to the
  -- middle, which `lt` and `gt` then mark off.
  pub partition : (p n : ℕ) → List A → Run (Parts A)
  partition p n a =
      let m4 = n / 4 in
      do
        m ← med3 cmp a (p + m4) (p + 2 * m4) (p + 3 * m4)
        b ← swap a p m
        s ← split n p (record { array = b; lt = 1; i = 1; j = n; gt = n })
        let span = min s.lt (s.i - s.lt)
        c ← swap_block s.array p (p + (s.i - span)) span
        let span2 = min (n - s.gt) (s.gt - s.i)
        d ← swap_block c (p + s.i) (p + (n - span2)) span2
        ok (record s { array = d; lt = s.i - s.lt; gt = n - (s.gt - s.i) })

  -- `insert` moves the element at `j` down; `insertion` does so for `k` elements from `i` on.
  pub insert : (p j : ℕ) → List A → Run (List A)
  insert p zero a = ok a
  insert p (suc j) a =
      let lower : Run (List A) = do b ← swap a (p + suc j) (p + j); insert p j b
      in do c ← cmp_at cmp a (p + j) (p + suc j); if is_positive c then lower else ok a

  pub insertion : (p i k : ℕ) → List A → Run (List A)
  insertion p i zero a = ok a
  insertion p i (suc k) a = do b ← insert p i a; insertion p (suc i) k b

  -- The loop on one segment, `left` levels above the limit of the depth: the greater part goes on
  -- the stack, and the loop goes on with the other.
  pub sort_segment : (left p n depth : ℕ) → Sorting A → Run (Sorting A)
  sort_segment zero p n depth s =
      let heap : Run (Sorting A) = do b ← heapsortx cmp p n s.array; ok (record s { array = b })
      in let small : Run (Sorting A) = do
        b ← insertion p 1 (n - 1) s.array
        ok (record s { array = b })
        in if ltb 6 n then heap else small
  sort_segment (suc left) p n depth s =
      let quick : Run (Sorting A) = do
        t ← partition p n s.array
        let low : Segment = record { base = p; count = t.lt; depth = suc depth }
        let high : Segment = record { base = p + t.gt; count = n - t.gt; depth = suc depth }
        let is_low = ltb (n - t.gt) t.lt
        let next = if is_low then high else low
        stack ← push (if is_low then low else high) s.stack
        sort_segment left next.base next.count (suc depth)
            (record { array = t.array; stack = stack })
      in let small : Run (Sorting A) = do
        b ← insertion p 1 (n - 1) s.array
        ok (record s { array = b })
        in if ltb 6 n then quick else small

  -- The outer loop.
  pub sort_stack : (fuel : ℕ) → List A → List Segment → Run (List A)
  sort_stack zero a stack = out_of_fuel
  sort_stack (suc fuel) a [] = ok a
  sort_stack (suc fuel) a (top ∷ rest) = do
    t ←
        sort_segment (50 - top.depth) top.base top.count top.depth
          (record { array = a; stack = rest })
    sort_stack fuel t.array t.stack

  pub rqsort : List A → Run (List A)
  rqsort a =
      let n = length a in
      if ltb n 2
      then ok a
      else sort_stack (2 * n + 2) a (record { base = 0; count = n; depth = 0 } ∷ [])
