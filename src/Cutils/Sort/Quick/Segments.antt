-- ===== src/Cutils/Sort/Quick/Segments.antt =====
-- The segments that wait on the stack of `rqsort` of cutils.c.
use ggjs.Common.{
  ℕ, ◌+◌, ◌-◌, ◌*◌, ◌≤◌, ◌<◌, List, [], ◌∷◌, length, ◌≡◌, refl, ◌⊎◌, inl, inr, arith, lt→ltb,
}
use ggjs.Common.Run.{ok}
use ggjs.Cutils.Sort.Quick.{Parts, Segment, push}
use ggjs.Cutils.Sort.Quick.Partition.{Parted}
use ggjs.Cutils.Sort.Array.{key, Sorted}
use ggjs.Cutils.Sort.Within.{Within, Within-outside, Within-inside}

-- What the entries of the stack need of the outer loop: a bound of its rounds.
unfoldable pub work : List Segment → ℕ
work [] = 0
work (s ∷ rest) = 2 * s.count + 1 + work rest

-- The depths go down from the top, which has at most `d`.
unfoldable pub Depths : ℕ → List Segment → Type 0
Depths d [] = Unit
Depths d (s ∷ rest) = (s.depth ≤ d) × (0 < s.depth) × Depths (s.depth - 1) rest

-- The entries lie within an array of `size` elements.
unfoldable pub Fits : ℕ → List Segment → Type 0
Fits size [] = Unit
Fits size (s ∷ rest) = (s.base + s.count ≤ size) × Fits size rest

Depths-length : (d : ℕ) (stack : List Segment) → Depths d stack → length stack ≤ d
unfolding Depths
Depths-length d [] h = omega arith
Depths-length d (s ∷ rest) (le, pos, h) = omega (arith, Depths-length (s.depth - 1) rest h)

pub Depths-mono : (d e : ℕ) (stack : List Segment) → d ≤ e → Depths d stack → Depths e stack
unfolding Depths
Depths-mono d e [] le h = h
Depths-mono d e (s ∷ rest) le (le', pos, h) = (omega arith, pos, h)

-- There is room for a segment that is deeper than the rest.
pub push-Ends :
    (e : Segment) (stack : List Segment)
    → Depths (e.depth - 1) stack
    → e.depth ≤ 50
    → 0 < e.depth
    → push e stack ≡ ok (e ∷ stack)
unfolding push
push-Ends e stack h le pos =
    rw (lt→ltb (length stack) 50 (omega (arith, Depths-length (e.depth - 1) stack h))) refl

module _ {ℓ} {A : Type ℓ} (rank : A → ℕ) (Goal : List A → Type ℓ) where
  -- If the segments are put in order one after the other, `Goal` holds.
  unfoldable pub Awaits : List Segment → List A → Type ℓ
  Awaits [] a = Goal a
  Awaits (s ∷ rest) a =
      (b : List A)
      → Within s.base (s.base + s.count) a b
      → Sorted rank s.base s.base (s.base + s.count) b
      → Awaits rest b

module _ {ℓ} {A : Type ℓ} (rank : A → ℕ) where
  -- A change of one outer part leaves the three parts as they are.
  pub Parted-low :
      {p n v : ℕ} {t : Parts A} {b : List A}
      → Parted rank p n v t
      → Within p (p + t.lt) t.array b
      → Parted rank p n v (record t { array = b })
  Parted-low {p} {n} {v} {t} {b} h w =
      let lg = h.lt_gt in
      record {
        lt_gt = lg;
        gt_n = h.gt_n;
        less = λ k l q. let (x, lx, hx, e) = Within-inside rank w k l q in rw e (h.less x lx hx);
        same = λ k l q. rw (Within-outside rank w k (inr l)) (h.same k l q);
        more = λ k l q. rw (Within-outside rank w k (inr (omega arith))) (h.more k l q);
      }

  pub Parted-high :
      {p n v : ℕ} {t : Parts A} {b : List A}
      → Parted rank p n v t
      → Within (p + t.gt) (p + n) t.array b
      → Parted rank p n v (record t { array = b })
  Parted-high {p} {n} {v} {t} {b} h w =
      let lg = h.lt_gt in
      record {
        lt_gt = lg;
        gt_n = h.gt_n;
        less = λ k l q. rw (Within-outside rank w k (inl (omega arith))) (h.less k l q);
        same = λ k l q. rw (Within-outside rank w k (inl q)) (h.same k l q);
        more = λ k l q. let (x, lx, hx, e) = Within-inside rank w k l q in rw e (h.more x lx hx);
      }

  -- The outer parts alone are left to be put in order.
  pub Parted-Sorted :
      {p n v : ℕ} {t : Parts A}
      → Parted rank p n v t
      → Sorted rank p p (p + t.lt) t.array
      → Sorted rank (p + t.gt) (p + t.gt) (p + n) t.array
      → Sorted rank p p (p + n) t.array
  Parted-Sorted {p} {n} {v} {t} h s r =
      let lg = h.lt_gt in
      record {
        order = λ i j li lt lj hj. grind (
          arith,
          s.order i j,
          r.order i j,
          h.less i,
          h.same i,
          h.more i,
          h.less j,
          h.same j,
          h.more j,
        );
      }

  pub Sorted-outside :
      {lo hi lo' hi' : ℕ} {a b : List A}
      → Sorted rank lo lo hi a
      → Within lo' hi' a b
      → (hi ≤ lo') ⊎ (hi' ≤ lo)
      → Sorted rank lo lo hi b
  Sorted-outside {lo} {hi} {lo'} {hi'} {a} {b} s w out =
      let same : (k : ℕ) → lo ≤ k → k < hi → key rank b k ≡ key rank a k = λ k l q.
        Within-outside rank w k
          (elim out [ inl o ↦ inl (omega arith) | inr o ↦ inr (omega arith) ]) in
      record {
        order = λ i j li lt lj hj.
            rw (same i li (omega arith), same j (omega arith) hj) (s.order i j li lt lj hj);
      }
