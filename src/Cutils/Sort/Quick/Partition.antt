-- ===== src/Cutils/Sort/Quick/Partition.antt =====
-- `partition` in `rqsort` of cutils.c: the pivot, the loop and the two exchanges of blocks.
use Prim.Native.Nat.{compare}
use ggjs.Common.{
  ℕ, ◌+◌, ◌-◌, ◌*◌, ◌/◌, ◌≤◌, ◌<◌, min, List, length, ◌≡◌, inl, inr, arith, Bool-cases, lt_or_le,
}
use ggjs.Common.Int.{ℤ}
use ggjs.Common.Run.{Ends, ends, Ends-bind, Ends-if}
use ggjs.Cutils.Sort.{is_positive, is_negative, med3}
use ggjs.Cutils.Sort.Quick.{Parts, partition}
use ggjs.Cutils.Sort.Quick.Scan.{Split}
use ggjs.Cutils.Sort.Quick.Loop.{split-Divided}
use ggjs.Cutils.Sort.Quick.Block.{swap_block-parts}
use ggjs.Cutils.Sort.Array.{sign, key, swap-Swapped, cmp_at-Answer}
use ggjs.Cutils.Sort.Within.{Swapped-Within, Within, Within-trans, Within-wide, Within-outside}

-- The three parts of a segment of `n` elements from `p` on, round a pivot of rank `v`.
pub record Parted {ℓ} {A : Type ℓ} (rank : A → ℕ) (p n v : ℕ) (t : Parts A) : Type ℓ where
  pub lt_gt : t.lt < t.gt
  pub gt_n : t.gt ≤ n
  pub less : (k : ℕ) → p ≤ k → k < p + t.lt → key rank t.array k < v
  pub same : (k : ℕ) → p + t.lt ≤ k → k < p + t.gt → key rank t.array k ≡ v
  pub more : (k : ℕ) → p + t.gt ≤ k → k < p + n → v < key rank t.array k

module _ {ℓ} {A : Type ℓ} (cmp : A → A → ℤ) (rank : A → ℕ)
    (law : (x y : A) → sign (cmp x y) ≡ compare (rank x) (rank y)) where
  med3-range :
      (m : List A) (a b c lo hi : ℕ)
      → hi ≤ length m
      → (lo ≤ a) × (a < hi)
      → (lo ≤ b) × (b < hi)
      → (lo ≤ c) × (c < hi)
      → Ends (λ r. (lo ≤ r) × (r < hi)) (med3 cmp m a b c)
  unfolding med3
  med3-range m a b c lo hi size (la, ha) (lb, hb) (lc, hc) =
      Ends-bind (cmp_at-Answer cmp rank law m a b (omega arith) (omega arith)) (λ t x.
        let next = cmp_at-Answer cmp rank law m b c (omega arith) (omega arith) in
        let last = cmp_at-Answer cmp rank law m a c (omega arith) (omega arith) in
        Ends-if (is_negative t)
          (λ e. Ends-bind next (λ u y.
            Ends-if (is_negative u) (λ f. ends (lb, hb))
              (λ f. Ends-bind last (λ w z. elim (Bool-cases (is_negative w)) [
                | inl g ↦ rw g (ends (lc, hc))
                | inr g ↦ rw g (ends (la, ha))
              ]))))
          (λ e. Ends-bind next (λ u y.
            Ends-if (is_positive u) (λ f. ends (lb, hb))
              (λ f. Ends-bind last (λ w z. elim (Bool-cases (is_negative w)) [
                | inl g ↦ rw g (ends (la, ha))
                | inr g ↦ rw g (ends (lc, hc))
              ])))))

  -- The loop starts.
  Split-start :
      (p n : ℕ) (b : List A)
      → p + n ≤ length b
      → 0 < n
      → Split rank p n (key rank b p) (record { array = b; lt = 1; i = 1; j = n; gt = n })
  Split-start p n b size hn = record {
    parts = record {
      size = size;
      one = omega arith;
      lt_i = omega arith;
      i_gt = omega arith;
      gt_n = omega arith;
      same = λ k l h. grind arith;
      less = λ k l h. absurd (omega arith);
      more = λ k l h. absurd (omega arith);
      same' = λ k l h. absurd (omega arith);
    };
    i_j = omega arith;
    j_gt = omega arith;
  }

  pub partition-Parted :
      (p n : ℕ) (a : List A)
      → p + n ≤ length a
      → 0 < n
      → Ends (λ t. (v : ℕ) × Parted rank p n v t × Within p (p + n) a t.array) (partition cmp p n a)
  unfolding partition
  partition-Parted p n a size hn =
      Ends-bind
        (med3-range a (p + n / 4) (p + 2 * (n / 4)) (p + 3 * (n / 4)) p (p + n) size
          (omega arith, omega arith) (omega arith, omega arith) (omega arith, omega arith))
        (λ m (lm, hm). Ends-bind (swap-Swapped rank a p m (omega arith) (omega arith)) (λ b x.
          let moved =
            Swapped-Within rank {lo = p} {hi = p + n} (omega arith) (omega arith) lm hm x in
          Ends-bind
            (split-Divided cmp rank law n p n (key rank b p)
              (record { array = b; lt = 1; i = 1; j = n; gt = n })
              (Split-start p n b (rw moved.size size) hn) (omega arith))
            (λ s (h, w).
              let one = h.one in
              let li = h.lt_i in
              let ig = h.i_gt in
              let gn = h.gt_n in
              let v = key rank b p in
              Ends-bind
                (swap_block-parts rank (λ k. k ≡ v) (λ k. k < v) s.array p (p + s.lt) (p + s.i)
                  (p + (s.i - min s.lt (s.i - s.lt))) (p + (s.i - s.lt)) (min s.lt (s.i - s.lt))
                  (omega arith) (omega arith) (omega arith) (omega arith) (omega arith)
                  (omega (arith, h.size)) h.same h.less)
                (λ c (wc, less, same).
                  Ends-bind
                    (swap_block-parts rank (λ k. v < k) (λ k. k ≡ v) c (p + s.i) (p + s.gt) (p + n)
                      (p + (n - min (n - s.gt) (s.gt - s.i))) (p + (n - (s.gt - s.i)))
                      (min (n - s.gt) (s.gt - s.i)) (omega arith) (omega arith) (omega arith)
                      (omega arith) (omega arith) (rw wc.size h.size)
                      (λ k l q. rw (Within-outside rank wc k (inr l)) (h.more k l q))
                      (λ k l q. rw (Within-outside rank wc k (inr (omega arith))) (h.same' k l q)))
                    (λ d (wd, same', more). ends (
                      v,
                      record {
                        lt_gt = omega arith;
                        gt_n = omega arith;
                        less =
                            λ k l q. rw (Within-outside rank wd k (inl (omega arith))) (less k l q);
                        same = λ k l q. elim (lt_or_le k (p + s.i)) [
                          | inl z ↦ rw (Within-outside rank wd k (inl z)) (same k l z)
                          | inr z ↦ same' k z q
                        ];
                        more = more;
                      },
                      Within-trans moved (
                          Within-trans w (
                            Within-trans (Within-wide (omega arith) (omega arith) wc)
                              (Within-wide (omega arith) (omega arith) wd))),
                    ))))))
