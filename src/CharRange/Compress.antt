-- ===== src/CharRange/Compress.antt =====
-- `cr_compress` of libunicode.c: the set stays, and the array becomes the shortest for the set.
use ggjs.Common.{
  not-not, xor-twice, ℕ, suc, ◌≤◌, ◌<◌, ◌≡◌, refl, ap, sym, ◌∙◌, true, false, List, [], ◌∷◌, length,
  leb, ◌==◌, if◌then◌else◌, Option, none, some, arith, xor, Bool-cases, inl, inr,
}
use ggjs.CharRange.{CharRange, odd, merge, cr_compress}
use ggjs.CharRange.Set.{inside, From, From-weaken}

-- The points strictly increase from `lo` on: no interval is empty, and no two of them touch.
abbrev pub Rising : ℕ → List ℕ → Type 0
Rising lo [] = Unit {0}
Rising lo (x ∷ xs) = (lo ≤ x) × Rising (suc x) xs

-- The array that `merge` still has before it.
abbrev pending : Option (ℕ × ℕ) → List ℕ → List ℕ
pending none xs = xs
pending (some (s, e)) xs = s ∷ e ∷ xs

abbrev opened : ℕ → ℕ → Option (ℕ × ℕ)
opened x y = if x == y then none else some (x, y)

==-≡ : (x y : ℕ) → (x == y) ≡ true → x ≡ y
==-≡ x y h = ground arith

not-==-< : (x y : ℕ) → (x == y) ≡ false → x ≤ y → x < y
not-==-< x y h k = ground arith

two-less : (n : ℕ) → odd (suc (suc n)) ≡ false → odd n ≡ false
unfolding odd
two-less n h = sym (not-not (odd n)) ∙ h

inside-pair : (c x y : ℕ) (xs : List ℕ) → x ≡ y → inside c xs ≡ inside c (x ∷ y ∷ xs)
unfolding inside
inside-pair c x y xs h =
    sym (xor-twice (leb x c) (inside c xs))
    ∙ ap (λ z. xor (leb x c) (xor (leb z c) (inside c xs))) h

pending-inside :
    (c x y : ℕ) (xs : List ℕ) → inside c (pending (opened x y) xs) ≡ inside c (x ∷ y ∷ xs)
pending-inside c x y xs = elim (Bool-cases (x == y)) [
  | inl h ↦ rw h (inside-pair c x y xs (==-≡ x y h))
  | inr h ↦ rw h refl
]

merge-inside :
    (c : ℕ) (p : Option (ℕ × ℕ)) (xs : List ℕ)
    → odd (length xs) ≡ false
    → inside c (merge p xs) ≡ inside c (pending p xs)
unfolding merge inside odd
merge-inside c none [] h = refl
merge-inside c none (x ∷ []) h = absurd (cc)
merge-inside c none (x ∷ y ∷ rest) h =
    merge-inside c (opened x y) rest (two-less (length rest) h) ∙ pending-inside c x y rest
merge-inside c (some (s, e)) [] h = refl
merge-inside c (some (s, e)) (x ∷ []) h = absurd (cc)
merge-inside c (some (s, e)) (x ∷ y ∷ rest) h =
    let even = two-less (length rest) h in
    let longer = merge-inside c (some (s, y)) rest even in
    let next = merge-inside c (opened x y) rest even ∙ pending-inside c x y rest in
    elim (Bool-cases (e == x)) [
      | inl k ↦ rw k (longer ∙ ap (xor (leb s c)) (inside-pair c e x (y ∷ rest) (==-≡ e x k)))
      | inr k ↦ rw k (ap (λ b. xor (leb s c) (xor (leb e c) b)) next)
    ]

-- The points that are left rise from where the interval that is held ends.
abbrev Held : ℕ → Option (ℕ × ℕ) → List ℕ → Type 0
Held lo none xs = From lo xs
Held lo (some (s, e)) xs = (lo ≤ s) × (s < e) × From e xs

Held-opened : (lo x y : ℕ) (xs : List ℕ) → lo ≤ x → x ≤ y → From y xs → Held lo (opened x y) xs
Held-opened lo x y xs h k f = elim (Bool-cases (x == y)) [
  | inl e ↦ rw e (From-weaken xs (omega arith) f)
  | inr e ↦ rw e (h, not-==-< x y e k, f)
]

merge-Rising : (lo : ℕ) (p : Option (ℕ × ℕ)) (xs : List ℕ) → Held lo p xs → Rising lo (merge p xs)
unfolding merge
merge-Rising lo none [] h = tt
merge-Rising lo none (x ∷ []) h = tt
merge-Rising lo none (x ∷ y ∷ rest) h =
    merge-Rising lo (opened x y) rest (Held-opened lo x y rest h.0 h.1.0 h.1.1)
merge-Rising lo (some (s, e)) [] h = (h.0, (h.1, tt))
merge-Rising lo (some (s, e)) (x ∷ []) h = (h.0, (h.1, tt))
merge-Rising lo (some (s, e)) (x ∷ y ∷ rest) h = elim (Bool-cases (e == x)) [
  | inl k ↦ rw k (merge-Rising lo (some (s, y)) rest (h.0, omega arith, h.2.1.1))
  | inr k ↦ rw k (
      let apart = not-==-< e x k h.2.0 in
      let held = Held-opened (suc e) x y rest apart h.2.1.0 h.2.1.1 in
      (h.0, (h.1, merge-Rising (suc e) (opened x y) rest held)))
]

pub cr_compress-inside :
    (c : ℕ) (cr : CharRange)
    → odd (length cr.points) ≡ false
    → inside c (cr_compress cr).points ≡ inside c cr.points
unfolding cr_compress
cr_compress-inside c cr h = merge-inside c none cr.points h

pub cr_compress-Rising :
    (lo : ℕ) (cr : CharRange) → From lo cr.points → Rising lo (cr_compress cr).points
unfolding cr_compress
cr_compress-Rising lo cr h = merge-Rising lo none cr.points h

merge-even : (p : Option (ℕ × ℕ)) (xs : List ℕ) → odd (length (merge p xs)) ≡ false
unfolding merge odd
merge-even none [] = refl
merge-even none (x ∷ []) = refl
merge-even none (x ∷ y ∷ rest) = merge-even (opened x y) rest
merge-even (some (s, e)) [] = refl
merge-even (some (s, e)) (x ∷ []) = refl
merge-even (some (s, e)) (x ∷ y ∷ rest) = elim (Bool-cases (e == x)) [
  | inl k ↦ rw k (merge-even (some (s, y)) rest)
  | inr k ↦ rw k (not-not (odd (length (merge (opened x y) rest))) ∙ merge-even (opened x y) rest)
]

pub From-of_Rising : (lo low : ℕ) (xs : List ℕ) → low ≤ lo → Rising lo xs → From low xs
From-of_Rising lo low [] h r = tt
From-of_Rising lo low (x ∷ xs) h r = (omega arith, From-of_Rising (suc x) x xs (omega arith) r.1)

pub cr_compress-even : (cr : CharRange) → odd (length (cr_compress cr).points) ≡ false
unfolding cr_compress
cr_compress-even cr = merge-even none cr.points
