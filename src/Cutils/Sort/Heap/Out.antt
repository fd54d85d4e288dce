-- ===== src/Cutils/Sort/Heap/Out.antt =====
-- `heapsortx` of cutils.c: its second loop takes the elements out of the heap.
use Prim.Native.Nat.{compare}
use ggjs.Common.{
  ℕ, zero, suc, ◌+◌, ◌-◌, ◌/◌, ◌≤◌, ◌<◌, List, length, ltb, ◌≡◌, inl, inr, arith, lt_or_le, ltb→lt,
}
use ggjs.Common.Int.{ℤ}
use ggjs.Common.Run.{Ends, ends, Ends-bind, Ends-mono, Ends-if}
use ggjs.Cutils.Sort.{heap_out, heapsortx}
use ggjs.Cutils.Sort.Array.{sign, key, Swapped, swap-Swapped, Sorted}
use ggjs.Cutils.Sort.Within.{
  Swapped-Within, Within, Within-refl, Within-trans, Within-wide, Within-outside, Within-inside,
}
use ggjs.Cutils.Sort.Heap.{Heaped, Sinking, sift-Heaped, heap_up-Heaped}

module _ {ℓ} {A : Type ℓ} (rank : A → ℕ) where
  -- The first element is the greatest.
  Heaped-greatest :
      (base n : ℕ) (a : List A)
      → Heaped rank base n 0 a
      → (fuel i : ℕ) → i ≤ fuel
      → i < n
      → key rank a (base + i) ≤ key rank a (base + 0)
  Heaped-greatest base n a k fuel zero hf hi = omega arith
  Heaped-greatest base n a k (suc fuel) (suc i) hf hi =
      let up = k.above (i / 2) (suc i) (omega arith) (omega arith) (omega arith) hi in
      omega (arith, Heaped-greatest base n a k fuel (i / 2) (omega arith) (omega arith))
  Heaped-greatest base n a k zero (suc i) hf hi = absurd (omega arith)

  Heaped-root :
      (base n : ℕ) (a : List A)
      → Heaped rank base n 0 a
      → (x : ℕ) → base ≤ x
      → x < base + n
      → key rank a x ≤ key rank a base
  Heaped-root base n a k x lx hx =
      let e : base + (x - base) ≡ x = omega arith in
      let start : base + 0 ≡ base = omega arith in
      rw (e, start) at
        (Heaped-greatest base n a k (x - base) (x - base) (omega arith) (omega arith))

  -- The greatest element of the heap goes behind the heap.
  heap-Sorted :
      {base n i : ℕ} {a b : List A}
      → suc i < n
      → Heaped rank base (suc (suc i)) 0 a
      → Sorted rank base (base + suc (suc i)) (base + n) a
      → Swapped rank base (base + suc i) a b
      → Sinking rank base (suc i) 0 0 b × Sorted rank base (base + suc i) (base + n) b
  heap-Sorted {base} {n} {i} {a} {b} hi k s w =
      let top = Heaped-root base (suc (suc i)) a k in
      (
        record {
          above = λ j c hj ne low high hc.
              grind (arith, w.keys (base + c), w.keys (base + j), k.above j c);
          bridge = λ j c hj low high low' high' hc. absurd (omega arith);
        },
        record {
          order = λ j m lj lt hm mn. grind (
            arith,
            w.keys j,
            w.keys m,
            top j,
            s.order j m,
            s.order base m,
            s.order (base + suc i) m,
          );
        },
      )

  -- What goes on in the heap does not matter behind it.
  Sorted-Within :
      {base mid hi : ℕ} {a b : List A}
      → Sorted rank base mid hi a
      → Within base mid a b
      → Sorted rank base mid hi b
  Sorted-Within {base} {mid} {hi} {a} {b} s w = record {
    order = λ j m lj lt hm mn.
        let same = Within-outside rank w m (inr hm) in
        elim (lt_or_le j mid) [
          | inl l ↦
              let (x, lx, hx, e) = Within-inside rank w j lj l in
              rw (same, e) (s.order x m lx (omega arith) hm mn)
          | inr r ↦ rw (same, Within-outside rank w j (inr r)) (s.order j m lj lt hm mn)
        ];
  }

module _ {ℓ} {A : Type ℓ} (cmp : A → A → ℤ) (rank : A → ℕ)
    (law : (x y : A) → sign (cmp x y) ≡ compare (rank x) (rank y)) where
  heap_out-Sorted :
      (base n i : ℕ) (a : List A)
      → base + n ≤ length a
      → i < n
      → Heaped rank base (suc i) 0 a
      → Sorted rank base (base + suc i) (base + n) a
      → Ends
          (λ b. Within base (base + n) a b × Sorted rank base (base + 1) (base + n) b)
          (heap_out cmp base i a)
  unfolding heap_out
  heap_out-Sorted base n zero a size hi k s = ends (Within-refl base (base + n) a, s)
  heap_out-Sorted base n (suc i) a size hi k s =
      Ends-bind (swap-Swapped rank a base (base + suc i) (omega arith) (omega arith)) (λ b w.
        let moved =
          Swapped-Within rank {lo = base} {hi = base + n} (omega arith) (omega arith) (omega arith)
            (omega arith) w in
        let (k', s') = heap-Sorted rank hi k s w in
        Ends-bind
          (sift-Heaped cmp rank law (suc i + 1) base (suc i) 0 0 b (rw moved.size (omega arith))
            (omega arith) (omega arith) (omega arith) k')
          (λ c (u, v).
            let u' = Within-trans moved (Within-wide (omega arith) (omega arith) u) in
            Ends-mono
              (heap_out-Sorted base n i c (rw u'.size size) (omega arith) v
                (Sorted-Within rank s' u))
              (λ d (x, y). (Within-trans u' x, y))))

  -- If `cmp` answers by the order of some ranks and the `nmemb` elements from `base` on are within the
  -- array, heapsortx ends with them in ascending order: no access is outside the array, and each of
  -- the other elements stays in its place.
  pub heapsortx-Sorted :
      (base nmemb : ℕ) (a : List A)
      → base + nmemb ≤ length a
      → Ends
          (λ b. Within base (base + nmemb) a b × Sorted rank base base (base + nmemb) b)
          (heapsortx cmp base nmemb a)
  unfolding heapsortx
  heapsortx-Sorted base nmemb a size =
      Ends-if (ltb 1 nmemb)
        (λ two.
          let h = ltb→lt 1 nmemb two in
          Ends-bind
            (heap_up-Heaped cmp rank law base nmemb (nmemb / 2) a size (omega arith)
              (record { above = λ j c hj low high hc. absurd (omega arith) }))
            (λ b (w, k).
              Ends-mono
                (heap_out-Sorted base nmemb (nmemb - 1) b (rw w.size size) (omega arith)
                  (record { above = λ j c hj low high hc. k.above j c hj low high (omega arith) })
                  (record { order = λ i j li lt hj jn. absurd (omega arith) }))
                (λ c (u, s). (
                  Within-trans w u,
                  record { order = λ i j li lt hj jn. s.order i j li lt (omega arith) jn },
                ))))
        (λ few. ends (
          Within-refl base (base + nmemb) a,
          record { order = λ i j li lt hj jn. absurd (grind arith) },
        ))
