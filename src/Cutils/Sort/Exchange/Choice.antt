-- ===== src/Cutils/Sort/Exchange/Choice.antt =====
-- `exchange_func` of cutils.c chooses by the alignment of the array and the size of its elements.
use native.Mathlib.Nat.{mul-mod_left, mul_assoc, div-add-mod}
use ggjs.Common.{
  ℕ, ◌+◌, ◌*◌, ◌/◌, ◌%◌, ◌≤◌, ◌<◌, sym, Bool, true, false, List, length, ◌==◌, ◌||◌, bit_and,
  bit_or, if◌then◌else◌, ◌≡◌, refl, ◌⊎◌, inl, inr, arith,
}
use ggjs.Common.Bits.{bit_and-low, bit_or-even, bit_or-by_4, bit_or-by_8, bit_or-by_16, le-bit_or}
use ggjs.Common.Run.{Ends}
use ggjs.Cutils.Sort.Span.{Apart}
use ggjs.Cutils.Sort.Exchange.{
  Exchange, exchange_func, exchange_one_int128, exchange_int128s, exchange_one_int64,
  exchange_int64s, exchange_one_int32, exchange_int32s, exchange_one_int16, exchange_int16s,
  exchange_one_byte, exchange_bytes, exchange_word, exchange_words, exchange_pair, exchange_pairs,
}
use ggjs.Cutils.Sort.Exchange.Blocks.{
  Blocks, exchange_word-Blocks, exchange_words-Blocks, exchange_pair-Blocks, exchange_pairs-Blocks,
}

module _ (m : List ℕ) (a b n : ℕ) (ab : Apart a b n) (size_a : a + n ≤ length m)
    (size : b + n ≤ length m) where
  Good : Exchange → Type 0
  Good f = Ends (Blocks a b n m) (f m a b n)

  Good-if :
      (c : Bool) (f g : Exchange)
      → (c ≡ true → Good f)
      → (c ≡ false → Good g)
      → Good (if c then f else g)
  Good-if true f g p q = p refl
  Good-if false f g p q = q refl

  one_word : (w : ℕ) → n ≡ w → Ends (Blocks a b n m) (exchange_word w m a b)
  one_word w e = rw e (exchange_word-Blocks w m a b (rw e at ab) (omega arith) (omega arith))

  all_words : (w count : ℕ) → count * w ≡ n → Ends (Blocks a b n m) (exchange_words w count m a b)
  all_words w count e =
      rw e at (exchange_words-Blocks w count m a b (rw e ab) (rw e size_a) (rw e size))

  one_pair : n ≡ 16 → Ends (Blocks a b n m) (exchange_pair m a b)
  one_pair e = rw e (exchange_pair-Blocks m a b (rw e at ab) (omega arith) (omega arith))

  all_pairs : (count : ℕ) → count * 16 ≡ n → Ends (Blocks a b n m) (exchange_pairs count m a b)
  all_pairs count e =
      rw e at (exchange_pairs-Blocks count m a b (rw e ab) (rw e size_a) (rw e size))

  -- `s` is the size that the choice goes by.
  choice-Good :
      (base s : ℕ)
      → (s ≡ n) ⊎ (128 ≤ s)
      → (bit_or base s % 16 ≡ 0 → n % 16 ≡ 0)
      → (bit_or base s % 8 ≡ 0 → n % 8 ≡ 0)
      → (bit_or base s % 4 ≡ 0 → n % 4 ≡ 0)
      → (bit_or base s % 2 ≡ 0 → n % 2 ≡ 0)
      → Good (exchange_func base s)
  unfolding exchange_func exchange_one_int128 exchange_int128s exchange_one_int64 exchange_int64s
      exchange_one_int32 exchange_int32s exchange_one_int16 exchange_int16s exchange_one_byte
      exchange_bytes Good
  choice-Good base s hs h16 h8 h4 h2 =
      let x = bit_or base s in
      let low = bit_and x 15 in
      let el : low ≡ x % 16 = bit_and-low 4 x in
      Good-if (low == 0) _ _
        (λ c.
          Good-if (s == 16) _ _ (λ d. one_pair (grind arith))
            (λ d. all_pairs (n / 16) (grind (arith, h16))))
        (λ c.
          Good-if (low == 8) _ _
            (λ d.
              Good-if (s == 8) _ _ (λ e. one_word 8 (grind arith))
                (λ e. all_words 8 (n / 8) (grind (arith, h8))))
            (λ d.
              Good-if (low == 4 || low == 12) _ _
                (λ e.
                  Good-if (s == 4) _ _ (λ f. one_word 4 (grind arith))
                    (λ f. all_words 4 (n / 4) (grind (arith, h4))))
                (λ e.
                  Good-if (low == 2 || low == 6 || low == 10 || low == 14) _ _
                    (λ f.
                      Good-if (s == 2) _ _ (λ g. one_word 2 (grind arith))
                        (λ g. all_words 2 (n / 2) (grind (arith, h2))))
                    (λ f.
                      Good-if (s == 1) _ _ (λ g. one_word 1 (grind arith))
                        (λ g. all_words 1 n (omega arith))))))

-- The `swap` of the sorts: if two blocks of `size` bytes are within the memory and are the same or do
-- not overlap, in either order, the function that `exchange_func` chooses for an array and that size
-- exchanges them, and leaves the rest.
pub exchange_func-Blocks :
    (base : ℕ) (m : List ℕ) (a b size : ℕ)
    → Apart a b size
    → a + size ≤ length m
    → b + size ≤ length m
    → Ends (Blocks a b size m) (exchange_func base size m a b size)
unfolding Good
exchange_func-Blocks base m a b size ab inside_a inside =
    choice-Good m a b size ab inside_a inside base size (inl refl)
      (λ h. (bit_or-by_16 base size h).1) (λ h. (bit_or-by_8 base size h).1)
      (λ h. (bit_or-by_4 base size h).1) (λ h. (bit_or-even base size h).1)

-- A multiple of what `w` divides.
divides : (count size w : ℕ) → 0 < w → size % w ≡ 0 → (count * size) % w ≡ 0
divides count size w h e =
    let q = size / w in
    let es : size ≡ q * w = omega (arith, div-add-mod size w) in
    rw (es, sym (mul_assoc count q w)) (mul-mod_left (count * q) w)

-- The `swap_block` of rqsort: if two blocks of `count` elements of `size` bytes are within the memory
-- and are the same or do not overlap, in either order, the function chosen for `size | 128` exchanges
-- them, and leaves the rest.
pub exchange_func-swap_block :
    (base : ℕ) (m : List ℕ) (a b count size : ℕ)
    → Apart a b (count * size)
    → a + count * size ≤ length m
    → b + count * size ≤ length m
    → Ends (Blocks a b (count * size) m) (exchange_func base (bit_or size 128) m a b (count * size))
unfolding Good
exchange_func-swap_block base m a b count size ab inside_a inside =
    let s = bit_or size 128 in
    choice-Good m a b (count * size) ab inside_a inside base s (inr (le-bit_or 7 size))
      (λ h. divides count size 16 (omega arith) (bit_or-by_16 size 128 (bit_or-by_16 base s h).1).0)
      (λ h. divides count size 8 (omega arith) (bit_or-by_8 size 128 (bit_or-by_8 base s h).1).0)
      (λ h. divides count size 4 (omega arith) (bit_or-by_4 size 128 (bit_or-by_4 base s h).1).0)
      (λ h. divides count size 2 (omega arith) (bit_or-even size 128 (bit_or-even base s h).1).0)
