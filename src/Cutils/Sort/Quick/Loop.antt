-- ===== src/Cutils/Sort/Quick/Loop.antt =====
-- The loop of `rqsort` of cutils.c that divides a segment ends, and what it leaves.
use Prim.Native.Nat.{compare}
use ggjs.Common.{ℕ, zero, suc, ◌+◌, ◌-◌, ◌≤◌, ◌<◌, false, ltb, leb, ◌≡◌, refl, ◌∙◌, arith, ltb→lt}
use ggjs.Common.Int.{ℤ}
use ggjs.Common.Run.{Ends, ends, Ends-bind, Ends-mono, Ends-if}
use ggjs.Cutils.Sort.{is_positive, is_negative, is_zero}
use ggjs.Cutils.Sort.Quick.{Parts, take_up, scan_up, take_down, scan_down, split}
use ggjs.Cutils.Sort.Quick.Scan.{
  Divided, Split, First, Stopped, take_up-same, take_up-less, take_down-same, take_down-more,
  Split-Stopped, Stopped-Split, Stopped-Divided,
}
use ggjs.Cutils.Sort.Array.{sign, Answer, key, swap-Swapped, cmp_at-Answer}
use ggjs.Cutils.Sort.Within.{Swapped-Within, Within, Within-refl, Within-trans}

module _ {ℓ} {A : Type ℓ} (cmp : A → A → ℤ) (rank : A → ℕ)
    (law : (x y : A) → sign (cmp x y) ≡ compare (rank x) (rank y)) where
  take_up-Split :
      (p n v : ℕ) (c : ℤ) (s : Parts A)
      → Split rank p n v s
      → s.i < s.j
      → Answer v (key rank s.array (p + s.i)) c
      → is_negative c ≡ false
      → Ends
          (λ t.
            Split rank p n v t × Within p (p + n) s.array t.array × (t.i ≡ s.i + 1) × (t.j ≡ s.j))
          (take_up cmp p c s)
  unfolding take_up
  take_up-Split p n v c s h ij ans e =
      let li = h.parts.lt_i in
      Ends-if (is_zero c)
        (λ z.
          Ends-bind
            (swap-Swapped rank s.array (p + s.lt) (p + s.i)
              (omega (arith, h.parts.size, h.parts.gt_n, h.j_gt))
              (omega (arith, h.parts.size, h.parts.gt_n, h.j_gt)))
            (λ b w. ends (
              take_up-same rank h ij (grind (arith, ans.is_same)) w,
              Swapped-Within rank {lo = p} {hi = p + n} (omega arith)
                  (omega (arith, h.parts.gt_n, h.j_gt)) (omega arith)
                  (omega (arith, h.parts.gt_n, h.j_gt)) w,
              refl,
              refl,
            )))
        (λ z. ends (
          take_up-less rank h ij (grind (arith, ans.is_same, ans.negative)),
          Within-refl p (p + n) s.array,
          refl,
          refl,
        ))

  scan_up-Split :
      (fuel p n v : ℕ) (s : Parts A)
      → Split rank p n v s
      → s.j < fuel + s.i
      → Ends
          (λ t.
            Split rank p n v t
            × First rank p v t
            × Within p (p + n) s.array t.array
            × (s.i ≤ t.i)
            × (t.j ≡ s.j))
          (scan_up cmp fuel p s)
  unfolding scan_up
  scan_up-Split zero p n v s h enough = absurd (omega (arith, h.i_j))
  scan_up-Split (suc fuel) p n v s h enough =
      let pivot : key rank s.array p ≡ v =
        h.parts.same p (omega arith) (omega (arith, h.parts.one)) in
      let hj = h.j_gt in
      let hg = h.parts.gt_n in
      let hs = h.parts.size in
      Ends-if (ltb s.i s.j)
        (λ l.
          let ij = ltb→lt s.i s.j l in
          Ends-bind (cmp_at-Answer cmp rank law s.array p (p + s.i) (omega arith) (omega arith))
            (λ c ans0.
              let ans : Answer v (key rank s.array (p + s.i)) c = rw pivot at ans0 in
              Ends-if (is_negative c)
                (λ e. ends (
                  h,
                  (λ g. grind (arith, ans.negative)),
                  Within-refl p (p + n) s.array,
                  omega arith,
                  refl,
                ))
                (λ e. Ends-bind (take_up-Split p n v c s h ij ans e) (λ t (h', w, ei, ej).
                  Ends-mono (scan_up-Split fuel p n v t h' (omega arith)) (λ u (hu, fu, wu, iu, ju).
                    (hu, fu, Within-trans w wu, omega arith, ju ∙ ej))))))
        (λ l. ends (
          h,
          (λ g. h.parts.more (p + s.i) (grind (arith, h.i_j)) (omega arith)),
          Within-refl p (p + n) s.array,
          omega arith,
          refl,
        ))

  take_down-Split :
      (p n v j : ℕ) (c : ℤ) (s : Parts A)
      → Split rank p n v s
      → First rank p v s
      → s.j ≡ suc j
      → s.i < j
      → Answer v (key rank s.array (p + j)) c
      → is_positive c ≡ false
      → Ends
          (λ t.
            Split rank p n v t
            × First rank p v t
            × Within p (p + n) s.array t.array
            × (t.i ≡ s.i)
            × (t.j ≡ j))
          (take_down cmp p c (record s { j = j }))
  unfolding take_down
  take_down-Split p n v j c s h f ej ij ans e =
      let li = h.parts.lt_i in
      let hj = h.j_gt in
      let hg = h.parts.gt_n in
      let hs = h.parts.size in
      Ends-if (is_zero c)
        (λ z.
          Ends-bind (swap-Swapped rank s.array (p + (s.gt - 1)) (p + j) (omega arith) (omega arith))
            (λ b w.
              let (h', f') = take_down-same rank h f ej ij (grind (arith, ans.is_same)) w in
              ends (
                h',
                f',
                Swapped-Within rank {lo = p} {hi = p + n} (omega arith) (omega arith) (omega arith)
                    (omega arith) w,
                refl,
                refl,
              )))
        (λ z. ends (
          take_down-more rank h ej ij (grind (arith, ans.is_same, ans.positive)),
          f,
          Within-refl p (p + n) s.array,
          refl,
          refl,
        ))

  scan_down-Stopped :
      (p n v j : ℕ) (s : Parts A)
      → Split rank p n v s
      → First rank p v s
      → s.j ≡ j
      → Ends
          (λ t. Stopped rank p n v t × Within p (p + n) s.array t.array × (t.i ≡ s.i) × (t.j < j))
          (scan_down cmp p j s)
  unfolding scan_down
  scan_down-Stopped p n v zero s h f ej = absurd (omega (arith, h.i_j, h.parts.one, h.parts.lt_i))
  scan_down-Stopped p n v (suc j) s h f ej =
      let pivot : key rank s.array p ≡ v =
        h.parts.same p (omega arith) (omega (arith, h.parts.one)) in
      let hj = h.j_gt in
      let hg = h.parts.gt_n in
      let hs = h.parts.size in
      Ends-if (ltb s.i j)
        (λ l.
          let ij = ltb→lt s.i j l in
          Ends-bind (cmp_at-Answer cmp rank law s.array p (p + j) (omega arith) (omega arith))
            (λ c ans0.
              let ans : Answer v (key rank s.array (p + j)) c = rw pivot at ans0 in
              Ends-if (is_positive c)
                (λ e. ends (
                  Split-Stopped rank h f ej (λ q. grind (arith, ans.positive)),
                  Within-refl p (p + n) s.array,
                  refl,
                  omega arith,
                ))
                (λ e.
                  Ends-bind (take_down-Split p n v j c s h f ej ij ans e) (λ t (h', f', w, ei, et).
                    Ends-mono (scan_down-Stopped p n v j t h' f' et)
                      (λ u (hu, wu, iu, ju). (hu, Within-trans w wu, iu ∙ ei, omega arith))))))
        (λ l. ends (
          Split-Stopped rank h f ej (λ q. absurd (grind arith)),
          Within-refl p (p + n) s.array,
          refl,
          omega arith,
        ))

  pub split-Divided :
      (fuel p n v : ℕ) (s : Parts A)
      → Split rank p n v s
      → s.j < fuel + s.i
      → Ends (λ t. Divided rank p n v t.i t × Within p (p + n) s.array t.array) (split cmp fuel p s)
  unfolding split
  split-Divided zero p n v s h enough = absurd (omega (arith, h.i_j))
  split-Divided (suc fuel) p n v s h enough =
      Ends-bind (scan_up-Split (s.j - s.i + 1) p n v s h (omega arith)) (λ t (ht, ft, wt, it, jt).
        Ends-bind (scan_down-Stopped p n v t.j t ht ft refl) (λ u (hu, wu, iu, ju).
          let w = Within-trans wt wu in
          Ends-if (leb u.j u.i) (λ e. ends (Stopped-Divided rank hu (grind arith), w))
            (λ e.
              let ij : u.i < u.j = grind arith in
              let jg = hu.j_gt ij in
              let hg = hu.parts.gt_n in
              let hs = hu.parts.size in
              Ends-bind (swap-Swapped rank u.array (p + u.i) (p + u.j) (omega arith) (omega arith))
                (λ b x.
                  let moved =
                    Swapped-Within rank {lo = p} {hi = p + n} (omega arith) (omega arith)
                      (omega arith) (omega arith) x in
                  Ends-mono
                    (split-Divided fuel p n v (record u { array = b; i = u.i + 1 })
                      (Stopped-Split rank hu ij x) (omega arith))
                    (λ r (hr, wr). (hr, Within-trans w (Within-trans moved wr)))))))
