-- ===== src/Cutils/Sort/Quick/Rounds.antt =====
-- The loops of `rqsort` of cutils.c over the segments.
use Prim.Native.Nat.{compare}
use mathlib.Core.List.{Perm}
use ggjs.Common.{
  ℕ, zero, suc, ◌+◌, ◌-◌, ◌*◌, ◌≤◌, ◌<◌, List, [], ◌∷◌, length, ltb, ◌≡◌, refl, ◌∙◌, inl, inr,
  arith, Bool-cases, ltb→lt,
}
use ggjs.Common.Int.{ℤ}
use ggjs.Common.Run.{ok, ◌>>=◌, Ends, ends, Ends-bind, Ends-mono, Ends-if}
use ggjs.Cutils.Sort.Heap.Out.{heapsortx-Sorted}
use ggjs.Cutils.Sort.Quick.{Parts, Segment, Sorting, insertion, sort_segment, sort_stack, rqsort}
use ggjs.Cutils.Sort.Quick.Insertion.{insertion-segment}
use ggjs.Cutils.Sort.Quick.Partition.{Parted, partition-Parted}
use ggjs.Cutils.Sort.Quick.Segments.{
  work, Depths, Fits, Depths-mono, push-Ends, Awaits, Parted-low, Parted-high, Parted-Sorted,
  Sorted-outside,
}
use ggjs.Cutils.Sort.Array.{sign, Sorted}
use ggjs.Cutils.Sort.Within.{Within, Within-refl, Within-trans, Within-wide}

module _ {ℓ} {A : Type ℓ} (rank : A → ℕ) (Goal : List A → Type ℓ) where
  -- The loop may start on the `n` elements from `p` on, at `depth`.
  record Ready (size left p n depth : ℕ) (s : Sorting A) : Type ℓ where
    pub size_a : length s.array ≡ size
    pub inside : p + n ≤ size
    pub levels : depth + left ≡ 50
    pub depths : Depths depth s.stack
    pub fits : Fits size s.stack
    pub awaits :
        (b : List A)
        → Within p (p + n) s.array b
        → Sorted rank p p (p + n) b
        → Awaits rank Goal s.stack b

  -- The loop has left entries on the stack, with `todo` work at most.
  record Left (size todo : ℕ) (t : Sorting A) : Type ℓ where
    pub size_a : length t.array ≡ size
    pub depths : Depths 50 t.stack
    pub fits : Fits size t.stack
    pub awaits : Awaits rank Goal t.stack t.array
    pub less_work : work t.stack ≤ todo

  -- A segment that is put in order at once.
  Ready-Left :
      {size left p n depth : ℕ} {s : Sorting A} {b : List A}
      → Ready size left p n depth s
      → Within p (p + n) s.array b
      → Sorted rank p p (p + n) b
      → Left size (work s.stack + 2 * n) (record s { array = b })
  Ready-Left {left = left} {depth = depth} {s = s} {b = b} r w o = record {
    size_a = w.size ∙ r.size_a;
    depths = Depths-mono depth 50 s.stack (omega (arith, r.levels)) r.depths;
    fits = r.fits;
    awaits = r.awaits b w o;
    less_work = omega arith;
  }

  -- The lower part waits, the loop goes on with the upper one.
  Ready-high :
      {size left p n depth v : ℕ} {s : Sorting A} {t : Parts A}
      → Ready size (suc left) p n depth s
      → Parted rank p n v t
      → Within p (p + n) s.array t.array
      → Ready size left (p + t.gt) (n - t.gt) (suc depth) (record {
        array = t.array;
        stack = record { base = p; count = t.lt; depth = suc depth } ∷ s.stack;
      })
  unfolding Depths Fits Awaits
  Ready-high {size} {left} {p} {n} {depth} {v} {s} {t} r h w =
      let lg = h.lt_gt in
      let gn = h.gt_n in
      let e : p + t.gt + (n - t.gt) ≡ p + n = omega arith in
      record {
        size_a = w.size ∙ r.size_a;
        inside = omega (arith, r.inside);
        levels = omega (arith, r.levels);
        depths = (
          omega arith,
          omega arith,
          Depths-mono depth (suc depth - 1) s.stack (omega arith) r.depths,
        );
        fits = (omega (arith, r.inside), r.fits);
        awaits = λ b wb sb c wc sc.
            let wb' = rw e at wb in
            let sb' = rw e at sb in
            r.awaits c
              (Within-trans w (
                Within-trans (Within-wide (omega arith) (omega arith) wb')
                  (Within-wide (omega arith) (omega arith) wc)))
              (Parted-Sorted rank (Parted-low rank (Parted-high rank h wb') wc) sc
                (Sorted-outside rank sb' wc (inr (omega arith))));
      }

  -- The upper part waits, the loop goes on with the lower one.
  Ready-low :
      {size left p n depth v : ℕ} {s : Sorting A} {t : Parts A}
      → Ready size (suc left) p n depth s
      → Parted rank p n v t
      → Within p (p + n) s.array t.array
      → Ready size left p t.lt (suc depth) (record {
        array = t.array;
        stack = record { base = p + t.gt; count = n - t.gt; depth = suc depth } ∷ s.stack;
      })
  unfolding Depths Fits Awaits
  Ready-low {size} {left} {p} {n} {depth} {v} {s} {t} r h w =
      let lg = h.lt_gt in
      let gn = h.gt_n in
      let e : p + t.gt + (n - t.gt) ≡ p + n = omega arith in
      record {
        size_a = w.size ∙ r.size_a;
        inside = omega (arith, r.inside);
        levels = omega (arith, r.levels);
        depths = (
          omega arith,
          omega arith,
          Depths-mono depth (suc depth - 1) s.stack (omega arith) r.depths,
        );
        fits = (omega (arith, r.inside), r.fits);
        awaits = λ b wb sb c wc sc.
            let wc' = rw e at wc in
            let sc' = rw e at sc in
            r.awaits c
              (Within-trans w (
                Within-trans (Within-wide (omega arith) (omega arith) wb)
                  (Within-wide (omega arith) (omega arith) wc')))
              (Parted-Sorted rank (Parted-high rank (Parted-low rank h wb) wc')
                (Sorted-outside rank sb wc' (inl (omega arith))) sc');
      }

module _ {ℓ} {A : Type ℓ} (cmp : A → A → ℤ) (rank : A → ℕ)
    (law : (x y : A) → sign (cmp x y) ≡ compare (rank x) (rank y)) (Goal : List A → Type ℓ) where
  small-Left :
      {size left p n depth : ℕ} {s : Sorting A}
      → Ready rank Goal size left p n depth s
      → Ends
          (Left rank Goal size (work s.stack + 2 * n))
          (do b ← insertion cmp p 1 (n - 1) s.array; ok (record s { array = b }))
  small-Left {p = p} {n = n} {s = s} r =
      Ends-bind (insertion-segment cmp rank law p n s.array (rw r.size_a r.inside))
        (λ b (w, o). ends (Ready-Left rank Goal r w o))

  Ready-Depths :
      {size left p n depth : ℕ} {s : Sorting A}
      → Ready rank Goal size left p n depth s
      → Depths (suc depth - 1) s.stack
  Ready-Depths {depth = depth} {s = s} r =
      Depths-mono depth (suc depth - 1) s.stack (omega arith) r.depths

  Left-mono :
      {size todo todo' : ℕ} {t : Sorting A}
      → todo ≤ todo'
      → Left rank Goal size todo t
      → Left rank Goal size todo' t
  Left-mono le h = record {
    size_a = h.size_a;
    depths = h.depths;
    fits = h.fits;
    awaits = h.awaits;
    less_work = omega (arith, h.less_work);
  }

  sort_segment-Left :
      (size left p n depth : ℕ) (s : Sorting A)
      → Ready rank Goal size left p n depth s
      → Ends (Left rank Goal size (work s.stack + 2 * n)) (sort_segment cmp left p n depth s)
  unfolding sort_segment work
  sort_segment-Left size zero p n depth s r =
      Ends-if (ltb 6 n)
        (λ e.
          Ends-bind (heapsortx-Sorted cmp rank law p n s.array (rw r.size_a r.inside))
            (λ b (w, o). ends (Ready-Left rank Goal r w o)))
        (λ e. small-Left r)
  sort_segment-Left size (suc left) p n depth s r =
      Ends-if (ltb 6 n)
        (λ e.
          Ends-bind
            (partition-Parted cmp rank law p n s.array (rw r.size_a r.inside)
              (omega (arith, ltb→lt 6 n e)))
            (λ t (v, h, w). elim (Bool-cases (ltb (n - t.gt) t.lt)) [
              | inl f ↦
                  let r' = Ready-high rank Goal r h w in
                  rw
                    (
                      f,
                      push-Ends (record { base = p; count = t.lt; depth = suc depth }) s.stack
                          (Ready-Depths r) (omega (arith, r.levels)) (omega arith),
                    )
                    (Ends-mono (sort_segment-Left size left (p + t.gt) (n - t.gt) (suc depth) _ r')
                      (λ a g. Left-mono (omega (arith, h.lt_gt, h.gt_n)) g))
              | inr f ↦
                  let r' = Ready-low rank Goal r h w in
                  rw
                    (
                      f,
                      push-Ends (record { base = p + t.gt; count = n - t.gt; depth = suc depth })
                          s.stack (Ready-Depths r) (omega (arith, r.levels)) (omega arith),
                    )
                    (Ends-mono (sort_segment-Left size left p t.lt (suc depth) _ r')
                      (λ a g. Left-mono (omega (arith, h.lt_gt, h.gt_n)) g))
            ]))
        (λ e. small-Left r)

  -- Every round takes an entry from the stack, and the work that is left goes down.
  sort_stack-Ends :
      (fuel size : ℕ) (a : List A) (stack : List Segment)
      → length a ≡ size
      → work stack < fuel
      → Depths 50 stack
      → Fits size stack
      → Awaits rank Goal stack a
      → Ends Goal (sort_stack cmp fuel a stack)
  unfolding sort_stack work Depths Fits Awaits
  sort_stack-Ends zero size a stack es enough d f w = absurd (omega arith)
  sort_stack-Ends (suc fuel) size a [] es enough d f w = ends w
  sort_stack-Ends (suc fuel) size a (top_one ∷ rest) es enough (le, some_depth, d) (inside, f) w =
      let r : Ready rank Goal size (50 - top_one.depth) top_one.base top_one.count top_one.depth
          (record { array = a; stack = rest }) =
        record {
          size_a = es;
          inside = inside;
          levels = omega arith;
          depths = Depths-mono (top_one.depth - 1) top_one.depth rest (omega arith) d;
          fits = f;
          awaits = w;
        } in
      Ends-bind
        (sort_segment-Left size (50 - top_one.depth) top_one.base top_one.count top_one.depth _ r)
        (λ t l.
          sort_stack-Ends fuel size t.array t.stack l.size_a (omega (arith, l.less_work)) l.depths
            l.fits l.awaits)

  rqsort-Ends :
      (a : List A)
      → ((b : List A) → Within 0 (length a) a b → Sorted rank 0 0 (length a) b → Goal b)
      → Ends Goal (rqsort cmp a)
  unfolding rqsort sort_stack Depths Fits Awaits work
  rqsort-Ends a good =
      let n = length a in
      Ends-if (ltb n 2)
        (λ e.
          ends (
            good a (Within-refl 0 n a)
              (record { order = λ i j li lt hj jn. absurd (grind arith) })))
        (λ e.
          let start : 0 + n ≡ n = omega arith in
          let r : Ready rank Goal n 50 0 n 0 (record { array = a; stack = [] }) = record {
            size_a = refl;
            inside = omega arith;
            levels = refl;
            depths = tt;
            fits = tt;
            awaits = rw start good;
          } in
          let fuel : 2 * n + 2 ≡ suc (2 * n + 1) = omega arith in
          rw fuel (
            Ends-bind (sort_segment-Left n 50 0 n 0 _ r) (λ t l.
              sort_stack-Ends (2 * n + 1) n t.array t.stack l.size_a (omega (arith, l.less_work))
                l.depths l.fits l.awaits)))

module _ {ℓ} {A : Type ℓ} (cmp : A → A → ℤ) (rank : A → ℕ)
    (law : (x y : A) → sign (cmp x y) ≡ compare (rank x) (rank y)) where
  -- If `cmp` answers by the order of some ranks, rqsort ends with the elements of the array in
  -- ascending order: no access is outside the array, the stack never holds more than 50 entries, and
  -- the loops end.
  pub rqsort-Sorted :
      (a : List A) → Ends (λ b. Perm b a × Sorted rank 0 0 (length a) b) (rqsort cmp a)
  rqsort-Sorted a =
      rqsort-Ends cmp rank law (λ b. Perm b a × Sorted rank 0 0 (length a) b) a
        (λ b w o. (w.perm, o))
