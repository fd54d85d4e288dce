-- ===== src/Cutils/Sort/Within.antt =====
-- A part of the array of the sorts is put in another order, and the elements outside it stay.
use mathlib.Core.List.{Perm}
use mathlib.Core.List.Perm
use ggjs.Common.{
  ℕ, ◌≤◌, ◌<◌, List, length, get_elem?, ◌≡◌, refl, ◌∙◌, ◌⊎◌, inl, inr, arith, lt_or_le,
}
use ggjs.Cutils.Sort.Array.{key, same_key, Swapped, Swapped-items}

module _ {ℓ} {A : Type ℓ} where
  -- `b` is `a` with the elements from `lo` to `hi`, which is excluded, in another order.
  pub record Within (lo hi : ℕ) (a b : List A) : Type ℓ where
    pub size : length b ≡ length a
    pub outside : (k : ℕ) → (k < lo) ⊎ (hi ≤ k) → get_elem? b k ≡ get_elem? a k
    pub inside :
        (k : ℕ) → lo ≤ k → k < hi → (j : ℕ) × (lo ≤ j) × (j < hi) × (get_elem? b k ≡ get_elem? a j)
    pub perm : Perm b a

  pub Within-refl : (lo hi : ℕ) (a : List A) → Within lo hi a a
  Within-refl lo hi a = record {
    size = refl;
    outside = λ k h. refl;
    inside = λ k l h. (k, l, h, refl);
    perm = Perm.refl a;
  }

  pub Within-trans :
      {lo hi : ℕ} {a b c : List A} → Within lo hi a b → Within lo hi b c → Within lo hi a c
  Within-trans u v = record {
    size = v.size ∙ u.size;
    outside = λ k h. v.outside k h ∙ u.outside k h;
    inside = λ k l h.
        let (j, lj, hj, e) = v.inside k l h in
        let (m, lm, hm, f) = u.inside j lj hj in (m, lm, hm, e ∙ f);
    perm = Perm.trans v.perm u.perm;
  }

  -- A part of the segment alone changes.
  pub Within-wide :
      {lo hi lo' hi' : ℕ} {a b : List A}
      → lo' ≤ lo
      → hi ≤ hi'
      → Within lo hi a b
      → Within lo' hi' a b
  Within-wide {lo} {hi} {lo'} {hi'} {a} {b} hl hh u = record {
    size = u.size;
    outside = λ k h. u.outside k (elim h [ inl l ↦ inl (omega arith) | inr r ↦ inr (omega arith) ]);
    inside = λ k l h.
        let out : (k < lo) ⊎ (hi ≤ k)
            → (j : ℕ) × (lo' ≤ j) × (j < hi') × (get_elem? b k ≡ get_elem? a j) =
          λ o. (k, l, h, u.outside k o) in
        elim (lt_or_le k lo) [
          | inl o ↦ out (inl o)
          | inr lk ↦ elim (lt_or_le k hi) [
            | inl kh ↦ let (j, lj, hj, e) = u.inside k lk kh in (j, omega arith, omega arith, e)
            | inr o ↦ out (inr o)
          ]
        ];
    perm = u.perm;
  }

module _ {ℓ} {A : Type ℓ} (rank : A → ℕ) where
  pub Swapped-Within :
      {i j lo hi : ℕ} {a b : List A}
      → lo ≤ i
      → i < hi
      → lo ≤ j
      → j < hi
      → Swapped rank i j a b
      → Within lo hi a b
  Swapped-Within {i} {j} {lo} {hi} li hi' lj hj s = record {
    size = s.size;
    outside = λ k h. elim (Swapped-items rank s k) [
      | inl (e, f) ↦ absurd (elim h [ inl l ↦ omega arith | inr r ↦ omega arith ])
      | inr (inl (e, f)) ↦ absurd (elim h [ inl l ↦ omega arith | inr r ↦ omega arith ])
      | inr (inr (e, e', f)) ↦ f
    ];
    inside = λ k l h. elim (Swapped-items rank s k) [
      | inl (e, f) ↦ (j, lj, hj, f)
      | inr (inl (e, f)) ↦ (i, li, hi', f)
      | inr (inr (e, e', f)) ↦ (k, l, h, f)
    ];
    perm = s.perm;
  }

  -- What this says of the ranks.
  pub Within-outside :
      {lo hi : ℕ} {a b : List A}
      → Within lo hi a b
      → (k : ℕ) → (k < lo) ⊎ (hi ≤ k)
      → key rank b k ≡ key rank a k
  Within-outside {a = a} {b = b} w k h = same_key rank a b k k (w.outside k h)

  pub Within-inside :
      {lo hi : ℕ} {a b : List A}
      → Within lo hi a b
      → (k : ℕ) → lo ≤ k
      → k < hi
      → (j : ℕ) × (lo ≤ j) × (j < hi) × (key rank b k ≡ key rank a j)
  Within-inside {a = a} {b = b} w k l h =
      let (j, lj, hj, e) = w.inside k l h in (j, lj, hj, same_key rank a b j k e)
