-- ===== src/Cutils/Sort.antt =====
-- `heapsortx` and `med3` of cutils.c, on an array of elements. A pointer into the array is
-- an index, and `size` is 1; `cmp` is a parameter. The exchange of two elements is that of
-- Sort/Exchange.antt.
pub mod Quick
pub mod Span
pub mod Exchange
pub mod Array
pub mod Within
pub mod Heap
mod Examples
use ggjs.Common.{
  ℕ, zero, suc, ◌+◌, ◌-◌, ◌*◌, ◌/◌, Bool, true, false, List, get_elem?, set, ltb, ◌==◌,
  if◌then◌else◌,
}
use ggjs.Common.Int.{ℤ, pos, negsuc}
use ggjs.Common.Run.{Run, ok, out_of_fuel, ◌>>=◌, or_fault}

-- The tests of an `int` against zero.
abbrev pub is_positive : ℤ → Bool
is_positive (pos n) = ltb 0 n
is_positive (negsuc n) = false

abbrev pub is_negative : ℤ → Bool
is_negative (pos n) = false
is_negative (negsuc n) = true

abbrev pub is_zero : ℤ → Bool
is_zero (pos n) = n == 0
is_zero (negsuc n) = false

module _ {ℓ} {A : Type ℓ} where
  pub load : List A → ℕ → Run A
  load a i = or_fault (get_elem? a i)

  pub swap : List A → (i j : ℕ) → Run (List A)
  swap a i j = do x ← load a i; y ← load a j; ok (set (set a i y) j x)

  -- The exchange of two blocks of `span` elements.
  pub swap_block : List A → (i j span : ℕ) → Run (List A)
  swap_block a i j zero = ok a
  swap_block a i j (suc span) = do b ← swap a i j; swap_block b (suc i) (suc j) span

module _ {ℓ} {A : Type ℓ} (cmp : A → A → ℤ) where
  pub cmp_at : List A → (i j : ℕ) → Run ℤ
  cmp_at a i j = do x ← load a i; y ← load a j; ok (cmp x y)

  -- The greater child, from the left one, `c`, in a heap of `n` elements.
  pub child : List A → (base n c : ℕ) → Run ℕ
  child a base n c =
      let right : Run ℕ = do
        t ← cmp_at a (base + c) (base + c + 1)
        ok (if is_positive t then c else c + 1)
      in if ltb c (n - 1) then right else ok c

  -- The inner loop of `heapsortx`, from `r`.
  pub sift : (fuel base n r : ℕ) → List A → Run (List A)
  sift zero base n r a = out_of_fuel
  sift (suc fuel) base n r a =
      let down : Run (List A) = do
        c ← child a base n (r * 2 + 1)
        t ← cmp_at a (base + r) (base + c)
        let lower : Run (List A) = do b ← swap a (base + r) (base + c); sift fuel base n c b
        if is_positive t then ok a else lower
      in if ltb (r * 2 + 1) n then down else ok a

  -- The first loop of `heapsortx`, with `i` rounds to go, and the second.
  pub heap_up : (base n i : ℕ) → List A → Run (List A)
  heap_up base n zero a = ok a
  heap_up base n (suc i) a = do b ← sift (n + 1) base n i a; heap_up base n i b

  pub heap_out : (base i : ℕ) → List A → Run (List A)
  heap_out base zero a = ok a
  heap_out base (suc i) a = do
    b ← swap a base (base + suc i)
    c ← sift (suc i + 1) base (suc i) 0 b
    heap_out base i c

  pub heapsortx : (base nmemb : ℕ) → List A → Run (List A)
  heapsortx base nmemb a =
      let both : Run (List A) = do b ← heap_up base nmemb (nmemb / 2) a; heap_out base (nmemb - 1) b
      in if ltb 1 nmemb then both else ok a

  pub med3 : List A → (a b c : ℕ) → Run ℕ
  med3 m a b c =
      let third : (x y : ℕ) → Run ℕ =
        λ x y. do u ← cmp_at m a c; ok (if is_negative u then x else y)
      in let low : Run ℕ = do t ← cmp_at m b c; if is_negative t then ok b else third c a
        in let high : Run ℕ = do t ← cmp_at m b c; if is_positive t then ok b else third a c
          in do t ← cmp_at m a b; if is_negative t then low else high
