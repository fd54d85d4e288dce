-- ===== src/BigInt/Repr/Take.antt =====
-- The lowest limbs of an array, one limb more at a time.
use ggjs.Common.{
  ℕ, zero, suc, ◌/◌, ◌^◌, ◌<◌, ◌≡◌, refl, ap, List, [], ◌∷◌, length, get_or, take, arith,
}
use ggjs.BigInt.Limb.{base, snoc, IsLimbs}
use ggjs.BigInt.Repr.{sign}
use ggjs.BigInt.Repr.Extend.{sign-snoc}

pub take-suc : (l : ℕ) (t : List ℕ) → l < length t → take (suc l) t ≡ snoc (take l t) (get_or t l 0)
unfolding snoc
take-suc l [] h = absurd (omega arith)
take-suc zero (x ∷ xs) h = refl
take-suc (suc l) (x ∷ xs) h = ap (◌∷◌ x) (take-suc l xs (omega arith))

pub take-length : (t : List ℕ) → take (length t) t ≡ t
take-length [] = refl
take-length (x ∷ xs) = ap (◌∷◌ x) (take-length xs)

pub take-IsLimbs : (l : ℕ) (t : List ℕ) → IsLimbs t → IsLimbs (take l t)
take-IsLimbs zero t h = tt
take-IsLimbs (suc l) [] h = tt
take-IsLimbs (suc l) (x ∷ xs) h = (h.0, take-IsLimbs l xs h.1)

pub get_or-lt : (t : List ℕ) (l : ℕ) → IsLimbs t → get_or t l 0 < base
get_or-lt [] l h = omega arith
get_or-lt (x ∷ xs) zero h = h.0
get_or-lt (x ∷ xs) (suc l) h = get_or-lt xs l h.1

pub sign-take : (l : ℕ) (t : List ℕ) → l < length t → sign (take (suc l) t) ≡ get_or t l 0 / 2 ^ 63
sign-take l t h = rw (take-suc l t h) (sign-snoc (take l t) (get_or t l 0))
