-- ===== src/Cutils/Sort/Span.antt =====
-- Two blocks of an array that have changed places.
use ggjs.Common.{ℕ, ◌+◌, ◌≤◌, ◌<◌, List, ◌≡◌, ◌⊎◌, arith}
use ggjs.Cutils.Sort.Array.{key}

-- Blocks of `span` elements at `i` and `j` that are the same or do not overlap.
unfoldable pub Apart : (i j span : ℕ) → Type 0
Apart i j span = (i ≡ j) ⊎ ((i + span ≤ j) ⊎ (j + span ≤ i))

module _ {ℓ} {A : Type ℓ} (rank : A → ℕ) where
  -- The blocks of `span` elements at `i` and `j` have changed places.
  pub record Exchanged (i j span : ℕ) (a b : List A) : Type ℓ where
    pub first : (x y : ℕ) → i ≤ x → x < i + span → y + i ≡ x + j → key rank b x ≡ key rank a y
    pub second : (x y : ℕ) → i ≤ x → x < i + span → y + i ≡ x + j → key rank b y ≡ key rank a x
    pub rest :
        (k : ℕ) → (k < i) ⊎ (i + span ≤ k) → (k < j) ⊎ (j + span ≤ k) → key rank b k ≡ key rank a k

  -- One pair of blocks after the other.
  pub Exchanged-add :
      {i j m n : ℕ} {a b c : List A}
      → Apart i j (m + n)
      → Exchanged i j m a b
      → Exchanged (i + m) (j + m) n b c
      → Exchanged i j (m + n) a c
  unfolding Apart
  Exchanged-add {i} {j} {m} {n} {a} {b} {c} ij u w = record {
    first = λ x y l h e. grind (arith, u.first x y, u.rest y, w.first x y, w.rest x);
    second = λ x y l h e. grind (arith, u.second x y, u.rest x, w.second x y, w.rest y);
    rest = λ k h h'. grind (arith, w.rest k, u.rest k);
  }
