-- ===== src/CharRange/Set.antt =====
-- The set that an array of points stands for, and sorted arrays.
use ggjs.Common.{
  not-not, ℕ, ◌≤◌, ◌<◌, ◌≡◌, refl, ap, sym, ◌∙◌, Bool, true, false, List, [], ◌∷◌, ◌++◌, length,
  ltb, leb, ◌&&◌, ◌||◌, not, arith, xor,
}
use ggjs.CharRange.{odd}

-- A code point is in one of the intervals [start, end[.
unfoldable pub covers : ℕ → List ℕ → Bool
covers c [] = false
covers c (x ∷ []) = false
covers c (x ∷ y ∷ rest) = (leb x c && ltb c y) || covers c rest

-- The points up to a code point are odd in number.
unfoldable pub inside : ℕ → List ℕ → Bool
inside c [] = false
inside c (x ∷ xs) = xor (leb x c) (inside c xs)

-- The points increase from `lo` on.
abbrev pub From : ℕ → List ℕ → Type 0
From lo [] = Unit {0}
From lo (x ∷ xs) = (lo ≤ x) × From x xs

-- The points increase from `lo` to `hi`.
abbrev pub Between : ℕ → List ℕ → ℕ → Type 0
Between lo [] hi = lo ≤ hi
Between lo (x ∷ xs) hi = (lo ≤ x) × Between x xs hi

pub Between-mono :
    (lo : ℕ) (xs : List ℕ) {hi top : ℕ} → Between lo xs hi → hi ≤ top → Between lo xs top
Between-mono lo [] h k = omega arith
Between-mono lo (x ∷ xs) h k = (h.0, Between-mono x xs h.1 k)

pub Between-le : (lo : ℕ) (xs : List ℕ) (hi : ℕ) → Between lo xs hi → lo ≤ hi
Between-le lo [] hi h = h
Between-le lo (x ∷ xs) hi h = omega (arith, h.0, Between-le x xs hi h.1)

pub Between-append : (lo : ℕ) (xs : List ℕ) (v : ℕ) → Between lo xs v → Between lo (xs ++ v ∷ []) v
Between-append lo [] v h = omega arith
Between-append lo (x ∷ xs) v h = (h.0, Between-append x xs v h.1)

pub From-of_Between : (lo : ℕ) (xs : List ℕ) (hi : ℕ) → Between lo xs hi → From lo xs
From-of_Between lo [] hi h = tt
From-of_Between lo (x ∷ xs) hi h = (h.0, From-of_Between x xs hi h.1)

pub From-weaken : {lo low : ℕ} (xs : List ℕ) → low ≤ lo → From lo xs → From low xs
From-weaken [] h k = tt
From-weaken (x ∷ xs) h k = (omega arith, k.1)

-- Nothing lies below the first point.
pub inside-below : (c lo : ℕ) (xs : List ℕ) → From lo xs → c < lo → inside c xs ≡ false
unfolding inside
inside-below c lo [] h k = refl
inside-below c lo (x ∷ xs) h k = ground (arith, inside-below c x xs)

pub inside-append :
    (c : ℕ) (xs : List ℕ) (v : ℕ) → inside c (xs ++ v ∷ []) ≡ xor (inside c xs) (leb v c)
unfolding inside
inside-append c [] v = ground arith
inside-append c (x ∷ xs) v = ground (arith, inside-append c xs v)

pub odd-append : (xs : List ℕ) (v : ℕ) → odd (length (xs ++ v ∷ [])) ≡ not (odd (length xs))
unfolding odd
odd-append [] v = refl
odd-append (x ∷ xs) v = ap not (odd-append xs v)

pub interval-inside :
    (c x y : ℕ) (b : Bool)
    → x ≤ y
    → (c < y → b ≡ false)
    → ((leb x c && ltb c y) || b) ≡ xor (leb x c) (xor (leb y c) b)
interval-inside c x y true h k = ground (arith, k)
interval-inside c x y false h k = ground arith

-- For an increasing array of whole intervals the two views of the set agree.
pub covers-eq-inside :
    (c lo : ℕ) (xs : List ℕ) → From lo xs → odd (length xs) ≡ false → covers c xs ≡ inside c xs
unfolding covers inside odd
covers-eq-inside c lo [] h e = refl
covers-eq-inside c lo (x ∷ []) h e = absurd (cc)
covers-eq-inside c lo (x ∷ y ∷ rest) h e =
    let rest_eq = covers-eq-inside c y rest h.1.1 (sym (not-not (odd (length rest))) ∙ e) in
    let split = interval-inside c x y (inside c rest) h.1.0 λ k. inside-below c y rest h.1.1 k in
    ap (λ b. (leb x c && ltb c y) || b) rest_eq ∙ split
