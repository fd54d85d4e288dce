-- ===== src/Cutils/Sort/Quick/Insertion.antt =====
-- The insertion sort at the end of `rqsort` of cutils.c.
use Prim.Native.Nat.{compare}
use ggjs.Common.{ℕ, zero, suc, ◌+◌, ◌-◌, ◌≤◌, ◌<◌, List, length, ◌≡◌, ◌≢◌, arith}
use ggjs.Common.Int.{ℤ}
use ggjs.Common.Run.{Ends, ends, Ends-bind, Ends-mono, Ends-if}
use ggjs.Cutils.Sort.{is_positive}
use ggjs.Cutils.Sort.Quick.{insert, insertion}
use ggjs.Cutils.Sort.Array.{sign, key, Swapped, swap-Swapped, Sorted, cmp_at-Answer}
use ggjs.Cutils.Sort.Within.{Swapped-Within, Within, Within-refl, Within-trans, Within-wide}

module _ {ℓ} {A : Type ℓ} (rank : A → ℕ) where
  -- The elements from `lo` to `hi` are in order, except that some before `at` may be greater than
  -- the one there.
  record Placing (lo at hi : ℕ) (a : List A) : Type ℓ where
    pub order : (i j : ℕ) → lo ≤ i → i < j → j ≢ at → j < hi → key rank a i ≤ key rank a j

  Placing-stop :
      {lo j hi : ℕ} {a : List A}
      → Placing lo (suc j) hi a
      → key rank a j ≤ key rank a (suc j)
      → Sorted rank lo lo hi a
  Placing-stop {lo} {j} {hi} {a} s le = record {
    order = λ x y lx lt hy yn. grind (arith, s.order x y, s.order x j);
  }

  Placing-down :
      {lo j hi : ℕ} {a b : List A}
      → lo ≤ j
      → suc j < hi
      → Placing lo (suc j) hi a
      → key rank a (suc j) < key rank a j
      → Swapped rank (suc j) j a b
      → Placing lo j hi b
  Placing-down {lo} {j} {hi} {a} {b} lj hj s lt w = record {
    order = λ x y lx xy ne yn.
        grind (arith, w.keys x, w.keys y, s.order x y, s.order x j, s.order j y, s.order (suc j) y);
  }

module _ {ℓ} {A : Type ℓ} (cmp : A → A → ℤ) (rank : A → ℕ)
    (law : (x y : A) → sign (cmp x y) ≡ compare (rank x) (rank y)) where
  insert-Sorted :
      (p j m : ℕ) (a : List A)
      → p + m ≤ length a
      → j < m
      → Placing rank p (p + j) (p + m) a
      → Ends (λ b. Within p (p + m) a b × Sorted rank p p (p + m) b) (insert cmp p j a)
  unfolding insert
  insert-Sorted p zero m a size hj s = ends (
    Within-refl p (p + m) a,
    record { order = λ x y lx lt hy yn. s.order x y lx lt (grind arith) yn },
  )
  insert-Sorted p (suc j) m a size hj s =
      let e : p + suc j ≡ suc (p + j) = omega arith in
      let s' = rw e at s in
      rw e (
        Ends-bind (cmp_at-Answer cmp rank law a (p + j) (suc (p + j)) (omega arith) (omega arith))
          (λ t ans.
            Ends-if (is_positive t)
              (λ c.
                Ends-bind (swap-Swapped rank a (suc (p + j)) (p + j) (omega arith) (omega arith))
                  (λ b w.
                    let moved =
                      Swapped-Within rank {lo = p} {hi = p + m} (omega arith) (omega arith)
                        (omega arith) (omega arith) w in
                    let s'' =
                      Placing-down rank (omega arith) (omega arith) s' (grind (arith, ans.positive))
                        w in
                    Ends-mono (insert-Sorted p j m b (rw moved.size size) (omega arith) s'')
                      (λ d (u, v). (Within-trans moved u, v))))
              (λ c.
                ends
                  (Within-refl p (p + m) a, Placing-stop rank s' (grind (arith, ans.positive))))))

  insertion-Sorted :
      (p i k : ℕ) (a : List A)
      → p + (i + k) ≤ length a
      → Sorted rank p p (p + i) a
      → Ends
          (λ b. Within p (p + (i + k)) a b × Sorted rank p p (p + (i + k)) b)
          (insertion cmp p i k a)
  unfolding insertion
  insertion-Sorted p i zero a size s =
      let e : i + 0 ≡ i = omega arith in rw e (ends (Within-refl p (p + i) a, s))
  insertion-Sorted p i (suc k) a size s =
      let e : i + suc k ≡ suc i + k = omega arith in
      let place : Placing rank p (p + i) (p + suc i) a = record {
        order = λ x y lx lt ne yn. s.order x y lx lt (omega arith) (grind arith);
      } in
      Ends-bind (insert-Sorted p i (suc i) a (omega arith) (omega arith) place) (λ b (w, s'). rw e (
        Ends-mono (insertion-Sorted p (suc i) k b (rw w.size (omega arith)) s')
          (λ c (u, v). (Within-trans (Within-wide (omega arith) (omega arith) w) u, v))))

  -- The loops on a whole segment.
  pub insertion-segment :
      (p n : ℕ) (a : List A)
      → p + n ≤ length a
      → Ends (λ b. Within p (p + n) a b × Sorted rank p p (p + n) b) (insertion cmp p 1 (n - 1) a)
  unfolding insertion
  insertion-segment p zero a size =
      ends (Within-refl p (p + 0) a, record { order = λ x y lx lt hy yn. absurd (omega arith) })
  insertion-segment p (suc n) a size =
      let e : 1 + n ≡ suc n = omega arith in
      let f : suc n - 1 ≡ n = omega arith in
      rw f (
        rw e at (
          insertion-Sorted p 1 n a (rw e size)
            (record { order = λ x y lx lt hy yn. absurd (omega arith) })))
