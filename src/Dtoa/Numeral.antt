-- ===== src/Dtoa/Numeral.antt =====
-- The numerals that the printers of integers of dtoa.c are to write.
use ggjs.Common.{
  ℕ, ◌+◌, ◌-◌, ◌*◌, ◌<◌, ◌≤◌, List, [], ◌∷◌, ◌++◌, ltb, if◌then◌else◌, ◌≡◌, ◌≢◌, ◌⊎◌, refl, arith,
}
use ggjs.Dtoa.{digit_char}

-- The value of a character as a digit, and the number that the characters stand for, behind `v`.
abbrev pub digit_of : ℕ → ℕ
digit_of c = if ltb c 58 then c - 48 else c - 87

unfoldable pub number : (radix v : ℕ) → List ℕ → ℕ
number radix v [] = v
number radix v (c ∷ cs) = number radix (v * radix + digit_of c) cs

unfoldable pub AreDigits : (radix : ℕ) → List ℕ → Type 0
AreDigits radix [] = Unit {0}
AreDigits radix (c ∷ cs) = (digit_of c < radix) × (c ≡ digit_char (digit_of c)) × AreDigits radix cs

-- The first character, or that of zero.
abbrev pub head : List ℕ → ℕ
head [] = 48
head (c ∷ cs) = c

-- The digits of a number, the highest first, with no zero in front but that of the number zero.
pub record IsNumeral (radix n : ℕ) (cs : List ℕ) : Type 0 where
  pub value : number radix 0 cs ≡ n
  pub digits : AreDigits radix cs
  pub shortest : ((n ≡ 0) × (cs ≡ 48 ∷ [])) ⊎ (head cs ≢ 48)

pub digit_of-digit_char : (d : ℕ) → d < 36 → digit_of (digit_char d) ≡ d
digit_of-digit_char d h = ground arith

pub number-append :
    (radix v : ℕ) (cs ds : List ℕ) → number radix v (cs ++ ds) ≡ number radix (number radix v cs) ds
unfolding number
number-append radix v [] ds = refl
number-append radix v (c ∷ cs) ds = number-append radix (v * radix + digit_of c) cs ds

pub AreDigits-append :
    (radix : ℕ) (cs ds : List ℕ)
    → AreDigits radix cs
    → AreDigits radix ds
    → AreDigits radix (cs ++ ds)
unfolding AreDigits
AreDigits-append radix [] ds a b = b
AreDigits-append radix (c ∷ cs) ds (l, e, a) b = (l, e, AreDigits-append radix cs ds a b)

pub AreDigits-cons :
    (radix d : ℕ) (cs : List ℕ)
    → radix ≤ 36
    → d < radix
    → AreDigits radix cs
    → AreDigits radix (digit_char d ∷ cs)
unfolding AreDigits
AreDigits-cons radix d cs h l a =
    let e = digit_of-digit_char d (omega arith) in (rw e l, rw e refl, a)

pub head-digit_char : (d : ℕ) → 0 < d → d < 36 → digit_char d ≢ 48
head-digit_char d h l = ground arith
