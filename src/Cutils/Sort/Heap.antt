-- ===== src/Cutils/Sort/Heap.antt =====
-- The heap that the loops of `heapsortx` of cutils.c keep, and its first loop.
pub mod Out
use Prim.Native.Nat.{compare}
use ggjs.Common.{
  ℕ, zero, suc, ◌+◌, ◌-◌, ◌*◌, ◌/◌, ◌≤◌, ◌<◌, List, length, ltb, ◌≡◌, ◌≢◌, inl, inr, arith,
  Bool-cases, lt_or_le, eq_or_ne, ltb→lt,
}
use ggjs.Common.Int.{ℤ}
use ggjs.Common.Run.{Ends, ends, Ends-bind, Ends-mono, Ends-if}
use ggjs.Cutils.Sort.{is_positive, child, sift, heap_up, heap_out, heapsortx}
use ggjs.Cutils.Sort.Array.{sign, key, Swapped, swap-Swapped, Sorted, cmp_at-Answer}
use ggjs.Cutils.Sort.Within.{Swapped-Within, Within, Within-refl, Within-trans, Within-wide}

module _ {ℓ} {A : Type ℓ} (rank : A → ℕ) where
  -- Among the first `n` elements from `base` on, those from `s` on are not less than their children,
  -- except, perhaps, the one at `r`, whose children are not greater than its parent.
  pub record Heaped (base n s : ℕ) (a : List A) : Type ℓ where
    pub above :
        (i c : ℕ)
        → s ≤ i
        → i * 2 < c
        → c ≤ i * 2 + 2
        → c < n
        → key rank a (base + c) ≤ key rank a (base + i)

  pub record Sinking (base n s r : ℕ) (a : List A) : Type ℓ where
    pub above :
        (i c : ℕ)
        → s ≤ i
        → i ≢ r
        → i * 2 < c
        → c ≤ i * 2 + 2
        → c < n
        → key rank a (base + c) ≤ key rank a (base + i)
    pub bridge :
        (i c : ℕ)
        → s ≤ i
        → i * 2 < r
        → r ≤ i * 2 + 2
        → r * 2 < c
        → c ≤ r * 2 + 2
        → c < n
        → key rank a (base + c) ≤ key rank a (base + i)

  -- The greater child of `r`.
  pub record Greater (base n r : ℕ) (a : List A) (c : ℕ) : Type ℓ where
    pub low : r * 2 < c
    pub high : c ≤ r * 2 + 2
    pub inside : c < n
    pub greater :
        (d : ℕ) → r * 2 < d → d ≤ r * 2 + 2 → d < n → key rank a (base + d) ≤ key rank a (base + c)

  Sinking-stop :
      {base n s r c : ℕ} {a : List A}
      → Sinking base n s r a
      → Greater base n r a c
      → key rank a (base + c) < key rank a (base + r)
      → Heaped base n s a
  Sinking-stop {base} {n} {s} {r} {c} {a} k g lt = record {
    above = λ i d hs low high hn. elim (eq_or_ne i r) [
      | inl e ↦ grind (arith, g.greater d)
      | inr ne ↦ k.above i d hs ne low high hn
    ];
  }

  Sinking-down :
      {base n s r c : ℕ} {a b : List A}
      → s ≤ r
      → Sinking base n s r a
      → Greater base n r a c
      → key rank a (base + r) ≤ key rank a (base + c)
      → Swapped rank (base + r) (base + c) a b
      → Sinking base n s c b
  Sinking-down {base} {n} {s} {r} {c} {a} {b} hs k g le w = record {
    above = λ i d hs' ne low high hn.
        grind (arith, w.keys (base + d), w.keys (base + i), g.greater d, k.above i d, k.bridge i c);
    bridge = λ i d hs' low high low' high' hn.
        grind (arith, w.keys (base + d), w.keys (base + i), k.above c d);
  }

  Sinking-leaf :
      {base n s r : ℕ} {a : List A} → Sinking base n s r a → n ≤ r * 2 + 1 → Heaped base n s a
  Sinking-leaf {base} {n} {s} {r} {a} k leaf = record {
    above = λ i d hs low high hn. k.above i d hs (omega arith) low high hn;
  }

module _ {ℓ} {A : Type ℓ} (cmp : A → A → ℤ) (rank : A → ℕ)
    (law : (x y : A) → sign (cmp x y) ≡ compare (rank x) (rank y)) where
  child-Greater :
      (base n r : ℕ) (a : List A)
      → base + n ≤ length a
      → r * 2 + 1 < n
      → Ends (Greater rank base n r a) (child cmp a base n (r * 2 + 1))
  unfolding child
  child-Greater base n r a size inside =
      let left = r * 2 + 1 in
      Ends-if (ltb left (n - 1))
        (λ two.
          let more = ltb→lt left (n - 1) two in
          Ends-bind
            (cmp_at-Answer cmp rank law a (base + left) (base + left + 1) (omega arith)
              (omega arith))
            (λ t ans.
              rw ans.positive
                (elim (Bool-cases (ltb (key rank a (base + left + 1)) (key rank a (base + left)))) [
                  | inl e ↦ rw e (
                      ends (record {
                        low = omega arith;
                        high = omega arith;
                        inside = inside;
                        greater = λ d low high hd. grind arith;
                      }))
                  | inr e ↦ rw e (
                      ends (record {
                        low = omega arith;
                        high = omega arith;
                        inside = omega arith;
                        greater = λ d low high hd. grind arith;
                      }))
                ])))
        (λ one. ends (record {
          low = omega arith;
          high = omega arith;
          inside = inside;
          greater = λ d low high hd. grind arith;
        }))

  -- `sift` sinks the element at `r`.
  pub sift-Heaped :
      (fuel base n s r : ℕ) (a : List A)
      → base + n ≤ length a
      → s ≤ r
      → n < fuel + r
      → r < n
      → Sinking rank base n s r a
      → Ends (λ b. Within base (base + n) a b × Heaped rank base n s b) (sift cmp fuel base n r a)
  unfolding sift
  sift-Heaped zero base n s r a size hs enough hr k = absurd (omega arith)
  sift-Heaped (suc fuel) base n s r a size hs enough hr k =
      Ends-if (ltb (r * 2 + 1) n)
        (λ inner.
          let h = ltb→lt (r * 2 + 1) n inner in
          Ends-bind (child-Greater base n r a size h) (λ c g.
            Ends-bind
              (cmp_at-Answer cmp rank law a (base + r) (base + c) (omega arith)
                (omega (arith, g.inside)))
              (λ t ans.
                Ends-if (is_positive t)
                  (λ e. ends (
                    Within-refl base (base + n) a,
                    Sinking-stop rank k g (grind (arith, ans.positive)),
                  ))
                  (λ e.
                    Ends-bind
                      (swap-Swapped rank a (base + r) (base + c) (omega arith)
                        (omega (arith, g.inside)))
                      (λ b w.
                        let inside =
                          Swapped-Within rank {lo = base} {hi = base + n} (omega arith)
                            (omega arith) (omega arith) (omega (arith, g.inside)) w in
                        let k' = Sinking-down rank hs k g (grind (arith, ans.positive)) w in
                        Ends-mono
                          (sift-Heaped fuel base n s c b (rw inside.size size)
                            (omega (arith, g.low)) (omega (arith, g.low)) g.inside k')
                          (λ d (u, v). (Within-trans inside u, v)))))))
        (λ leaf. ends (Within-refl base (base + n) a, Sinking-leaf rank k (grind arith)))

  pub heap_up-Heaped :
      (base n i : ℕ) (a : List A)
      → base + n ≤ length a
      → i < n
      → Heaped rank base n i a
      → Ends (λ b. Within base (base + n) a b × Heaped rank base n 0 b) (heap_up cmp base n i a)
  unfolding heap_up
  heap_up-Heaped base n zero a size hi k = ends (Within-refl base (base + n) a, k)
  heap_up-Heaped base n (suc i) a size hi k =
      let s : Sinking rank base n i i a = record {
        above = λ j c hj ne low high hc. k.above j c (grind arith) low high hc;
        bridge = λ j c hj low high low' high' hc. absurd (omega arith);
      } in
      Ends-bind (sift-Heaped (n + 1) base n i i a size (omega arith) (omega arith) (omega arith) s)
        (λ b (w, k').
          Ends-mono (heap_up-Heaped base n i b (rw w.size size) (omega arith) k')
            (λ c (u, v). (Within-trans w u, v)))
