-- ===== src/Cutils/Sort/Examples.antt =====
-- The sorts and the exchange of blocks on small inputs.
use Prim.Native.Nat.{compare}
use mathlib.Core.List.{Perm}
use ggjs.Common.{
  ℕ, ltb, ◌==◌, if◌then◌else◌, List, [], ◌∷◌, ◌+◌, ◌*◌, bit_or, length, ◌≡◌, inr, arith,
}
use ggjs.Common.Int.{ℤ, pos, negsuc}
use ggjs.Common.Run.{Ends}
use ggjs.Cutils.Sort.{heapsortx}
use ggjs.Cutils.Sort.Array.{sign, Sorted}
use ggjs.Cutils.Sort.Within.{Within}
use ggjs.Cutils.Sort.Heap.Out.{heapsortx-Sorted}
use ggjs.Cutils.Sort.Quick.{rqsort}
use ggjs.Cutils.Sort.Quick.Rounds.{rqsort-Sorted}
use ggjs.Cutils.Sort.Span.{Apart}
use ggjs.Cutils.Sort.Exchange.{exchange_func}
use ggjs.Cutils.Sort.Exchange.Blocks.{Blocks}
use ggjs.Cutils.Sort.Exchange.Choice.{exchange_func-Blocks, exchange_func-swap_block}

-- Numbers under their order.
abbrev compare_numbers : ℕ → ℕ → ℤ
compare_numbers x y = if ltb x y then negsuc 0 else if x == y then pos 0 else pos 1

abbrev itself : ℕ → ℕ
itself x = x

sign-compare_numbers : (x y : ℕ) → sign (compare_numbers x y) ≡ compare (itself x) (itself y)
sign-compare_numbers x y = ground arith

abbrev numbers : List ℕ
numbers = 3 ∷ 9 ∷ 1 ∷ 5 ∷ 5 ∷ 2 ∷ 8 ∷ 0 ∷ 5 ∷ []

rqsort-Sorted_example :
    Ends
      (λ b. Perm b numbers × Sorted itself 0 0 (length numbers) b)
      (rqsort compare_numbers numbers)
rqsort-Sorted_example = rqsort-Sorted compare_numbers itself sign-compare_numbers numbers

heapsortx-Sorted_example :
    Ends
      (λ b. Within 1 (1 + 7) numbers b × Sorted itself 1 1 (1 + 7) b)
      (heapsortx compare_numbers 1 7 numbers)
heapsortx-Sorted_example =
    heapsortx-Sorted compare_numbers itself sign-compare_numbers 1 7 numbers (omega arith)

-- The upper block is given first.
upper_first : Apart 5 1 4
unfolding Apart
upper_first = inr (inr (omega arith))

exchange_func-Blocks_example : Ends (Blocks 5 1 4 numbers) (exchange_func 8 4 numbers 5 1 4)
exchange_func-Blocks_example =
    exchange_func-Blocks 8 numbers 5 1 4 upper_first (omega arith) (omega arith)

exchange_func-swap_block_example :
    Ends (Blocks 5 1 (2 * 2) numbers) (exchange_func 8 (bit_or 2 128) numbers 5 1 (2 * 2))
exchange_func-swap_block_example =
    exchange_func-swap_block 8 numbers 5 1 2 2 upper_first (omega arith) (omega arith)
