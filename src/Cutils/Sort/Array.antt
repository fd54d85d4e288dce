-- ===== src/Cutils/Sort/Array.antt =====
-- What the accesses of the sorts do to the ranks of the elements. `rank` stands for the order that
-- `cmp` answers by.
use mathlib.Core.List.{Perm}
use mathlib.Core.List.Perm
use mathlib.Core.Option.{Option, none, some-injective}
use Prim.Native.Nat.{compare, Ordering}
use ggjs.Common.{
  ℕ, zero, suc, ◌≤◌, ◌<◌, List, [], ◌∷◌, length, get_elem?, set, ltb, ◌==◌, length-set,
  get_elem?-set_self, get_elem?-set_ne, some, ==_iff, ◌≢◌, ne→==, eq_or_ne, if◌then◌else◌, ◌≡◌,
  refl, sym, ap, ◌∙◌, ◌⊎◌, inl, inr, arith, Bool-cases,
}
use ggjs.Common.Int.{ℤ, pos, negsuc}
use ggjs.Common.Run.{Ends, ends}
use ggjs.Cutils.Sort.{is_positive, is_negative, is_zero, load, swap, cmp_at}

abbrev pub sign : ℤ → Ordering
sign (pos zero) = Ordering.eq
sign (pos (suc n)) = Ordering.gt
sign (negsuc n) = Ordering.lt

-- An answer of `cmp` for elements of the ranks `x` and `y`.
pub record Answer (x y : ℕ) (t : ℤ) : Type 0 where
  pub positive : is_positive t ≡ ltb y x
  pub negative : is_negative t ≡ ltb x y
  pub is_same : is_zero t ≡ (x == y)

Answer-sign : (x y : ℕ) (t : ℤ) → sign t ≡ compare x y → Answer x y t
Answer-sign x y (pos zero) h = record {
  positive = ground arith;
  negative = ground arith;
  is_same = ground arith;
}
Answer-sign x y (pos (suc n)) h = record {
  positive = ground arith;
  negative = ground arith;
  is_same = ground arith;
}
Answer-sign x y (negsuc n) h = record {
  positive = ground arith;
  negative = ground arith;
  is_same = ground arith;
}

module _ {ℓ} {A : Type ℓ} where
  pub get_elem?-length : (a : List A) (i : ℕ) → i < length a → (x : A) × (get_elem? a i ≡ some x)
  get_elem?-length [] i h = absurd (omega arith)
  get_elem?-length (x ∷ a) zero h = (x, refl)
  get_elem?-length (x ∷ a) (suc i) h = get_elem?-length a i (omega arith)

  get_elem?-set :
      (a : List A) (i j : ℕ) (y : A)
      → i < length a
      → get_elem? a j ≡ some y
      → get_elem? (set a i y) j ≡ some y
  get_elem?-set a i j y h e = elim (eq_or_ne i j) [
    | inl eq ↦ ap (get_elem? (set a i y)) (sym eq) ∙ get_elem?-set_self a i y h
    | inr ne ↦ get_elem?-set_ne a y ne ∙ e
  ]

  get_elem?-set_if :
      (a : List A) (i k : ℕ) (v : A)
      → i < length a
      → get_elem? (set a i v) k ≡ (if i == k then some v else get_elem? a k)
  get_elem?-set_if a i k v h = elim (Bool-cases (i == k)) [
    | inl e ↦
        rw e (ap (get_elem? (set a i v)) (sym ((==_iff i k).0 e)) ∙ get_elem?-set_self a i v h)
    | inr e ↦ rw e (get_elem?-set_ne a v (ne→== i k e))
  ]

  -- A write trades the old element for the new one.
  set-Perm : (a : List A) (i : ℕ) (x v : A) → get_elem? a i ≡ some x → Perm (x ∷ set a i v) (v ∷ a)
  set-Perm [] i x v h = absurd (ground arith)
  set-Perm (y ∷ a) zero x v h = rw (sym (some-injective y x h)) (Perm.swap v y a)
  set-Perm (y ∷ a) (suc i) x v h =
      let rest = Perm.cons y (set-Perm a i x v h) in
      Perm.trans (Perm.swap y x _) (Perm.trans rest (Perm.swap v y a))

module _ {ℓ} {A : Type ℓ} (rank : A → ℕ) where
  unfoldable pub key : List A → ℕ → ℕ
  key [] i = 0
  key (x ∷ a) zero = rank x
  key (x ∷ a) (suc i) = key a i

  pub key-get_elem? : (a : List A) (i : ℕ) (x : A) → get_elem? a i ≡ some x → key a i ≡ rank x
  unfolding key
  key-get_elem? [] i x h = absurd (ground arith)
  key-get_elem? (y ∷ a) zero x h = ap rank (some-injective y x h)
  key-get_elem? (y ∷ a) (suc i) x h = key-get_elem? a i x h

  rank_of : Option A → ℕ
  rank_of none = 0
  rank_of (some x) = rank x

  key-rank_of : (a : List A) (i : ℕ) → key a i ≡ rank_of (get_elem? a i)
  unfolding key rank_of
  key-rank_of [] i = refl
  key-rank_of (x ∷ a) zero = refl
  key-rank_of (x ∷ a) (suc i) = key-rank_of a i

  -- The same element has the same rank.
  pub same_key : (a b : List A) (i j : ℕ) → get_elem? b j ≡ get_elem? a i → key b j ≡ key a i
  same_key a b i j e = key-rank_of b j ∙ ap rank_of e ∙ sym (key-rank_of a i)

  pub key-set :
      (a : List A) (i k : ℕ) (v : A)
      → i < length a
      → key (set a i v) k ≡ (if i == k then rank v else key a k)
  unfolding key
  key-set [] i k v h = absurd (omega arith)
  key-set (x ∷ a) zero zero v h = refl
  key-set (x ∷ a) zero (suc k) v h = ground arith
  key-set (x ∷ a) (suc i) zero v h = ground arith
  key-set (x ∷ a) (suc i) (suc k) v h = ground (arith, key-set a i k v)

  -- `b` is `a` with the elements at `i` and `j` exchanged.
  pub record Swapped (i j : ℕ) (a b : List A) : Type ℓ where
    pub size : length b ≡ length a
    pub keys : (k : ℕ) → key b k ≡ (if j == k then key a i else if i == k then key a j else key a k)
    pub items :
        (k : ℕ)
        → get_elem? b k
          ≡ (if j == k then get_elem? a i else if i == k then get_elem? a j else get_elem? a k)
    pub perm : Perm b a

  pub swap-Swapped :
      (a : List A) (i j : ℕ) → i < length a → j < length a → Ends (Swapped i j a) (swap a i j)
  unfolding swap load
  swap-Swapped a i j hi hj =
      let (x, ex) = get_elem?-length a i hi in
      let (y, ey) = get_elem?-length a j hj in
      let b = set a i y in
      let hb : j < length b = rw (length-set a i y) hj in
      let kx = key-get_elem? a i x ex in
      let ky = key-get_elem? a j y ey in
      let kept = get_elem?-set a i j y hi ey in
      rw (ex, ey)
        (ends (record {
          size = length-set b j x ∙ length-set a i y;
          keys = λ k. rw (key-set b j k x hb, key-set a i k y hi, kx, ky) refl;
          items = λ k. rw (get_elem?-set_if b j k x hb, get_elem?-set_if a i k y hi, ex, ey) refl;
          perm = Perm.cons_inv (Perm.trans (set-Perm b j y x kept) (set-Perm a i x y ex));
        }))

  pub Swapped-items :
      {i j : ℕ} {a b : List A}
      → Swapped i j a b
      → (k : ℕ)
      → ((k ≡ i) × (get_elem? b k ≡ get_elem? a j))
        ⊎ (((k ≡ j) × (get_elem? b k ≡ get_elem? a i))
            ⊎ ((k ≢ i) × (k ≢ j) × (get_elem? b k ≡ get_elem? a k)))
  Swapped-items {i} {j} s k = elim (Bool-cases (j == k)) [
    | inl e ↦ inr (inl (sym ((==_iff j k).0 e), rw e at (s.items k)))
    | inr e ↦ elim (Bool-cases (i == k)) [
      | inl f ↦ inl (sym ((==_iff i k).0 f), rw (e, f) at (s.items k))
      | inr f ↦
          let ne : k ≢ i = λ q. ne→== i k f (sym q) in
          let ne' : k ≢ j = λ q. ne→== j k e (sym q) in
          inr (inr (ne, ne', rw (e, f) at (s.items k)))
    ]
  ]

  -- Of the elements from `lo` to `hi`, those from `from` on have none before them that is greater.
  pub record Sorted (lo from hi : ℕ) (a : List A) : Type ℓ where
    pub order : (i j : ℕ) → lo ≤ i → i < j → from ≤ j → j < hi → key a i ≤ key a j

module _ {ℓ} {A : Type ℓ} (cmp : A → A → ℤ) (rank : A → ℕ)
    (law : (x y : A) → sign (cmp x y) ≡ compare (rank x) (rank y)) where
  pub cmp_at-Answer :
      (a : List A) (i j : ℕ)
      → i < length a
      → j < length a
      → Ends (Answer (key rank a i) (key rank a j)) (cmp_at cmp a i j)
  unfolding cmp_at load
  cmp_at-Answer a i j hi hj =
      let (x, ex) = get_elem?-length a i hi in
      let (y, ey) = get_elem?-length a j hj in
      rw (ex, ey, key-get_elem? rank a i x ex, key-get_elem? rank a j y ey)
        (ends (Answer-sign (rank x) (rank y) (cmp x y) (law x y)))
