-- ===== src/Cutils/Sort/Quick/Scan.antt =====
-- The loop of `rqsort` of cutils.c that divides a segment in four parts.
use ggjs.Common.{ℕ, suc, ◌+◌, ◌-◌, ◌≤◌, ◌<◌, List, length, ◌≡◌, inl, inr, arith, eq_or_ne}
use ggjs.Cutils.Sort.Quick.{Parts}
use ggjs.Cutils.Sort.Array.{key, Swapped}

module _ {ℓ} {A : Type ℓ} (rank : A → ℕ) where
  -- The parts of the `n` elements from `p` on that are known: identical to the pivot, whose rank is
  -- `v`, less than it, greater than it, and identical again. Those from `i` to `more_from` are not known.
  pub record Divided (p n v more_from : ℕ) (s : Parts A) : Type ℓ where
    pub size : p + n ≤ length s.array
    pub one : 1 ≤ s.lt
    pub lt_i : s.lt ≤ s.i
    pub i_gt : s.i ≤ s.gt
    pub gt_n : s.gt ≤ n
    pub same : (k : ℕ) → p ≤ k → k < p + s.lt → key rank s.array k ≡ v
    pub less : (k : ℕ) → p + s.lt ≤ k → k < p + s.i → key rank s.array k < v
    pub more : (k : ℕ) → p + more_from ≤ k → k < p + s.gt → v < key rank s.array k
    pub same' : (k : ℕ) → p + s.gt ≤ k → k < p + n → key rank s.array k ≡ v

  -- At the head of an inner loop.
  pub record Split (p n v : ℕ) (s : Parts A) : Type ℓ where
    pub parts : Divided p n v s.j s
    pub i_j : s.i ≤ s.j
    pub j_gt : s.j ≤ s.gt

  -- The first element that is not known is greater than the pivot.
  abbrev pub First : (p v : ℕ) → Parts A → Type 0
  First p v s = s.i < s.gt → v < key rank s.array (p + s.i)

  -- After the second inner loop.
  pub record Stopped (p n v : ℕ) (s : Parts A) : Type ℓ where
    pub parts : Divided p n v (suc s.j) s
    pub first : First p v s
    pub last : s.i < s.j → key rank s.array (p + s.j) < v
    pub j_gt : s.i < s.j → s.j < s.gt

  pub take_up-same :
      {p n v : ℕ} {s : Parts A} {b : List A}
      → Split p n v s
      → s.i < s.j
      → key rank s.array (p + s.i) ≡ v
      → Swapped rank (p + s.lt) (p + s.i) s.array b
      → Split p n v (record s { array = b; lt = s.lt + 1; i = s.i + 1 })
  take_up-same {p} {n} {v} {s} {b} h ij e w = record {
    parts = record {
      size = rw w.size h.parts.size;
      one = omega arith;
      lt_i = omega (arith, h.parts.lt_i);
      i_gt = omega (arith, h.j_gt);
      gt_n = h.parts.gt_n;
      same = λ k lk kh. grind (arith, w.keys k, h.parts.same k, h.parts.lt_i);
      less =
          λ k lk kh. grind (arith, w.keys k, h.parts.less k, h.parts.less (p + s.lt), h.parts.lt_i);
      more = λ k lk kh. grind (arith, w.keys k, h.parts.more k, h.parts.lt_i);
      same' = λ k lk kh. grind (arith, w.keys k, h.parts.same' k, h.parts.lt_i, h.j_gt);
    };
    i_j = omega arith;
    j_gt = h.j_gt;
  }

  pub take_up-less :
      {p n v : ℕ} {s : Parts A}
      → Split p n v s
      → s.i < s.j
      → key rank s.array (p + s.i) < v
      → Split p n v (record s { i = s.i + 1 })
  take_up-less {p} {n} {v} {s} h ij e = record {
    parts = record {
      size = h.parts.size;
      one = h.parts.one;
      lt_i = omega (arith, h.parts.lt_i);
      i_gt = omega (arith, h.j_gt);
      gt_n = h.parts.gt_n;
      same = h.parts.same;
      less = λ k lk kh. grind (arith, h.parts.less k);
      more = h.parts.more;
      same' = h.parts.same';
    };
    i_j = omega arith;
    j_gt = h.j_gt;
  }

  pub take_down-same :
      {p n v j : ℕ} {s : Parts A} {b : List A}
      → Split p n v s
      → First p v s
      → s.j ≡ suc j
      → s.i < j
      → key rank s.array (p + j) ≡ v
      → Swapped rank (p + (s.gt - 1)) (p + j) s.array b
      → Split p n v (record s { array = b; j = j; gt = s.gt - 1 })
        × First p v (record s { array = b; j = j; gt = s.gt - 1 })
  take_down-same {p} {n} {v} {j} {s} {b} h f ej ij e w =
      let jg = h.j_gt in
      let li = h.parts.lt_i in
      let gn = h.parts.gt_n in
      (
        record {
          parts = record {
            size = rw w.size h.parts.size;
            one = h.parts.one;
            lt_i = h.parts.lt_i;
            i_gt = omega arith;
            gt_n = omega arith;
            same = λ k lk kh. grind (arith, w.keys k, h.parts.same k);
            less = λ k lk kh. grind (arith, w.keys k, h.parts.less k);
            more =
                λ k lk kh. grind (arith, w.keys k, h.parts.more k, h.parts.more (p + (s.gt - 1)));
            same' = λ k lk kh. grind (arith, w.keys k, h.parts.same' k);
          };
          i_j = omega arith;
          j_gt = omega arith;
        },
        λ g. grind (arith, w.keys (p + s.i), f),
      )

  pub take_down-more :
      {p n v j : ℕ} {s : Parts A}
      → Split p n v s
      → s.j ≡ suc j
      → s.i < j
      → v < key rank s.array (p + j)
      → Split p n v (record s { j = j })
  take_down-more {p} {n} {v} {j} {s} h ej ij e = record {
    parts = record {
      size = h.parts.size;
      one = h.parts.one;
      lt_i = h.parts.lt_i;
      i_gt = h.parts.i_gt;
      gt_n = h.parts.gt_n;
      same = h.parts.same;
      less = h.parts.less;
      more = λ k lk kh. grind (arith, h.parts.more k);
      same' = h.parts.same';
    };
    i_j = omega arith;
    j_gt = omega (arith, h.j_gt);
  }

  -- The second inner loop ends at `j`.
  pub Split-Stopped :
      {p n v j : ℕ} {s : Parts A}
      → Split p n v s
      → First p v s
      → s.j ≡ suc j
      → (s.i < j → key rank s.array (p + j) < v)
      → Stopped p n v (record s { j = j })
  Split-Stopped {p} {n} {v} {j} {s} h f ej last = record {
    parts = record {
      size = h.parts.size;
      one = h.parts.one;
      lt_i = h.parts.lt_i;
      i_gt = h.parts.i_gt;
      gt_n = h.parts.gt_n;
      same = h.parts.same;
      less = h.parts.less;
      more = rw ej at h.parts.more;
      same' = h.parts.same';
    };
    first = f;
    last = last;
    j_gt = λ l. omega (arith, h.j_gt);
  }

  -- The elements at `i` and `j` change places.
  pub Stopped-Split :
      {p n v : ℕ} {s : Parts A} {b : List A}
      → Stopped p n v s
      → s.i < s.j
      → Swapped rank (p + s.i) (p + s.j) s.array b
      → Split p n v (record s { array = b; i = s.i + 1 })
  Stopped-Split {p} {n} {v} {s} {b} h ij w =
      let jg = h.j_gt ij in
      let li = h.parts.lt_i in
      let last = h.last ij in
      record {
        parts = record {
          size = rw w.size h.parts.size;
          one = h.parts.one;
          lt_i = omega arith;
          i_gt = omega arith;
          gt_n = h.parts.gt_n;
          same = λ k lk kh. grind (arith, w.keys k, h.parts.same k);
          less = λ k lk kh. grind (arith, w.keys k, h.parts.less k);
          more = λ k lk kh. grind (arith, w.keys k, h.parts.more k, h.first);
          same' = λ k lk kh. grind (arith, w.keys k, h.parts.same' k);
        };
        i_j = omega arith;
        j_gt = omega arith;
      }

  -- The loop ends: no element is unknown.
  pub Stopped-Divided :
      {p n v : ℕ} {s : Parts A} → Stopped p n v s → s.j ≤ s.i → Divided p n v s.i s
  Stopped-Divided {p} {n} {v} {s} h ji = record {
    size = h.parts.size;
    one = h.parts.one;
    lt_i = h.parts.lt_i;
    i_gt = h.parts.i_gt;
    gt_n = h.parts.gt_n;
    same = h.parts.same;
    less = h.parts.less;
    more = λ k lk kh. elim (eq_or_ne k (p + s.i)) [
      | inl e ↦ rw e (h.first (omega arith))
      | inr ne ↦ h.parts.more k (omega arith) kh
    ];
    same' = h.parts.same';
  }
