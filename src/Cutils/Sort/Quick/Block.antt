-- ===== src/Cutils/Sort/Quick/Block.antt =====
-- `swap_block` in `rqsort` of cutils.c: two neighbouring parts of a segment change places.
use ggjs.Common.{
  ℕ, zero, suc, ◌+◌, ◌-◌, ◌≤◌, ◌<◌, min, List, length, ◌≡◌, refl, inl, inr, arith, lt_or_le,
}
use ggjs.Common.Run.{Ends, ends, Ends-bind, Ends-mono}
use ggjs.Cutils.Sort.{swap_block}
use ggjs.Cutils.Sort.Span.{Apart, Exchanged, Exchanged-add}
use ggjs.Cutils.Sort.Array.{key, Swapped, swap-Swapped}
use ggjs.Cutils.Sort.Within.{Swapped-Within, Within, Within-refl, Within-trans}

module _ {ℓ} {A : Type ℓ} (rank : A → ℕ) where
  -- One pair of elements.
  Swapped-Exchanged :
      {i j : ℕ} {a b : List A} → i < j → Swapped rank i j a b → Exchanged rank i j 1 a b
  Swapped-Exchanged {i} {j} {a} {b} ij w = record {
    first = λ x y l h e. grind (arith, w.keys x);
    second = λ x y l h e. grind (arith, w.keys y);
    rest = λ k h h'. grind (arith, w.keys k);
  }

  swap_block-Exchanged :
      (a : List A) (i j span lo hi : ℕ)
      → lo ≤ i
      → i + span ≤ j
      → j + span ≤ hi
      → hi ≤ length a
      → Ends (λ b. Exchanged rank i j span a b × Within lo hi a b) (swap_block a i j span)
  unfolding swap_block Apart
  swap_block-Exchanged a i j zero lo hi li ij jh size = ends (
    record {
      first = λ x y l h e. absurd (omega arith);
      second = λ x y l h e. absurd (omega arith);
      rest = λ k h h'. refl;
    },
    Within-refl lo hi a,
  )
  swap_block-Exchanged a i j (suc span) lo hi li ij jh size =
      Ends-bind (swap-Swapped rank a i j (omega arith) (omega arith)) (λ b w.
        let moved =
          Swapped-Within rank {lo = lo} {hi = hi} li (omega arith) (omega arith) (omega arith) w in
        Ends-mono
          (swap_block-Exchanged b (suc i) (suc j) span lo hi (omega arith) (omega arith)
            (omega arith) (rw moved.size size))
          (λ c (x, u).
            let ei : suc i ≡ i + 1 = omega arith in
            let ej : suc j ≡ j + 1 = omega arith in
            let es : 1 + span ≡ suc span = omega arith in
            (
              rw es at (
                  Exchanged-add rank (omega arith) (Swapped-Exchanged (omega arith) w)
                    (rw (ei, ej) at x)),
              Within-trans moved u,
            )))

  -- The elements from `x` to `m` satisfy `X`, those from `m` to `z` satisfy `Y`: after the exchange
  -- of the smaller number of elements at both ends it is the other way round.
  pub swap_block-parts {κ κ'} :
      (X : ℕ → Type κ) (Y : ℕ → Type κ') (a : List A) (x m z y m' span : ℕ)
      → x ≤ m
      → m ≤ z
      → span ≡ min (m - x) (z - m)
      → y + span ≡ z
      → m' + m ≡ x + z
      → z ≤ length a
      → ((k : ℕ) → x ≤ k → k < m → X (key rank a k))
      → ((k : ℕ) → m ≤ k → k < z → Y (key rank a k))
      → Ends
          (λ b.
            Within x z a b
            × ((k : ℕ) → x ≤ k → k < m' → Y (key rank b k))
            × ((k : ℕ) → m' ≤ k → k < z → X (key rank b k)))
          (swap_block a x y span)
  swap_block-parts X Y a x m z y m' span xm mz es ey em size hx hy =
      Ends-mono (swap_block-Exchanged a x y span x z (omega arith) (omega arith) (omega arith) size)
        (λ b (t, w). (
          w,
          (λ k l h. elim (lt_or_le k (x + span)) [
            | inl q ↦
                rw (t.first k (k + y - x) l q (omega arith))
                  (hy (k + y - x) (omega arith) (omega arith))
            | inr q ↦ rw (t.rest k (inr q) (inl (omega arith))) (hy k (omega arith) (omega arith))
          ]),
          (λ k l h. elim (lt_or_le k y) [
            | inl q ↦ rw (t.rest k (inr (omega arith)) (inl q)) (hx k (omega arith) (omega arith))
            | inr q ↦
                rw (t.second (k + x - y) k (omega arith) (omega arith) (omega arith))
                  (hx (k + x - y) (omega arith) (omega arith))
          ]),
        ))
