-- ===== src/CharRange/Unique.antt =====
-- The points that `cr_compress` leaves are decided by the set: libunicode.c can compare sets by them.
use ggjs.Common.{
  ℕ, suc, ◌<◌, ◌≡◌, refl, ap, sym, ◌∙◌, Bool, true, false, List, [], ◌∷◌, length, leb, arith, xor,
  xor-twice,
}
use ggjs.CharRange.{CharRange, odd, cr_compress}
use ggjs.CharRange.Set.{inside, inside-below, covers, covers-eq-inside, From}
use ggjs.CharRange.Compress.{Rising, From-of_Rising, cr_compress-inside, cr_compress-Rising}
use mathlib.Core.Path.{ap₂}

-- The least point is where the set begins.
first-inside : (x : ℕ) (xs : List ℕ) → Rising (suc x) xs → inside x (x ∷ xs) ≡ true
unfolding inside
first-inside x xs h =
    let none_above =
      inside-below x (suc x) xs (From-of_Rising (suc x) (suc x) xs (omega arith) h) (omega arith) in
    ground (arith, none_above)

before-inside : (c x : ℕ) (xs : List ℕ) → c < x → Rising (suc x) xs → inside c (x ∷ xs) ≡ false
before-inside c x xs k h =
    inside-below c x (x ∷ xs) (omega arith, From-of_Rising (suc x) x xs (omega arith) h) k

xor-cancel : (a b c : Bool) → xor a b ≡ xor a c → b ≡ c
xor-cancel a b c h = sym (xor-twice a b) ∙ ap (xor a) h ∙ xor-twice a c

first_unique :
    (x y : ℕ) (xs ys : List ℕ)
    → Rising (suc x) xs
    → Rising (suc y) ys
    → ((c : ℕ) → inside c (x ∷ xs) ≡ inside c (y ∷ ys))
    → x ≡ y
first_unique x y xs ys hx hy e =
    let hits : x < y → true ≡ false =
      λ k. sym (first-inside x xs hx) ∙ e x ∙ before-inside x y ys k hy in
    let hits' : y < x → true ≡ false =
      λ k. sym (first-inside y ys hy) ∙ sym (e y) ∙ before-inside y x xs k hx in
    ground (arith, hits, hits')

rest-inside :
    (c x y : ℕ) (xs ys : List ℕ)
    → x ≡ y
    → inside c (x ∷ xs) ≡ inside c (y ∷ ys)
    → inside c xs ≡ inside c ys
unfolding inside
rest-inside c x y xs ys e h =
    xor-cancel (leb x c) (inside c xs) (inside c ys)
      (h ∙ ap (λ z. xor (leb z c) (inside c ys)) (sym e))

Rising-unique :
    (lo low : ℕ) (xs ys : List ℕ)
    → Rising lo xs
    → Rising low ys
    → ((c : ℕ) → inside c xs ≡ inside c ys)
    → xs ≡ ys
unfolding inside
Rising-unique lo low [] [] hx hy e = refl
Rising-unique lo low [] (y ∷ ys) hx hy e =
    let no : true ≡ false = sym (first-inside y ys hy.1) ∙ sym (e y) in absurd (cc)
Rising-unique lo low (x ∷ xs) [] hx hy e =
    let no : true ≡ false = sym (first-inside x xs hx.1) ∙ e x in absurd (cc)
Rising-unique lo low (x ∷ xs) (y ∷ ys) hx hy e =
    let same = first_unique x y xs ys hx.1 hy.1 e in
    ap₂ (λ z zs. z ∷ zs) same
      (Rising-unique (suc x) (suc y) xs ys hx.1 hy.1 λ c. rest-inside c x y xs ys same (e c))

even-inside :
    (c : ℕ) (cr : CharRange)
    → From 0 cr.points
    → odd (length cr.points) ≡ false
    → inside c (cr_compress cr).points ≡ covers c cr.points
even-inside c cr h e = cr_compress-inside c cr e ∙ sym (covers-eq-inside c 0 cr.points h e)

-- If the points of two ranges increase and are even in number, and the two have the same code points,
-- then `cr_compress` leaves the two with the same points.
pub cr_compress-Unique :
    (cr cr1 : CharRange)
    → From 0 cr.points
    → From 0 cr1.points
    → odd (length cr.points) ≡ false
    → odd (length cr1.points) ≡ false
    → ((c : ℕ) → covers c cr.points ≡ covers c cr1.points)
    → (cr_compress cr).points ≡ (cr_compress cr1).points
cr_compress-Unique cr cr1 h h1 e e1 same =
    Rising-unique 0 0 (cr_compress cr).points (cr_compress cr1).points (cr_compress-Rising 0 cr h)
      (cr_compress-Rising 0 cr1 h1)
      λ c. even-inside c cr h e ∙ same c ∙ sym (even-inside c cr1 h1 e1)
