-- ===== src/Dtoa/Signed.antt =====
-- What the printers of signed words of dtoa.c write.
use native.Mathlib.Nat.{mod-lt, mod-eq_of_lt}
use ggjs.Common.{
  ℕ, ◌+◌, ◌-◌, ◌%◌, ◌^◌, ◌<◌, ◌≤◌, List, ◌∷◌, ltb, if◌then◌else◌, ◌≡◌, ◌⊎◌, inl, inr, refl, arith,
}
use ggjs.Common.Run.{Run, ok, Ends, ends, Ends-if, Ends-mono, Ends-bind, ◌>>=◌}
use ggjs.Dtoa.{u32toa, u64toa, u64toa_radix, i32toa, i64toa, i64toa_radix, minus_sign}
use ggjs.Dtoa.Printers.{u32toa-IsNumeral, u64toa-IsNumeral, u64toa_radix-IsNumeral}
use ggjs.Dtoa.Numeral.{IsNumeral}

-- The numeral of a signed word, of which `half` is the lowest that stands for a negative number.
pub IsSigned : (half radix n : ℕ) → List ℕ → Type 0
IsSigned half radix n bs =
    ((n < half) × IsNumeral radix n bs)
    ⊎ ((digits : List ℕ) × (half ≤ n)
        × (bs ≡ minus_sign ∷ digits)
        × IsNumeral radix (half + half - n) digits)

module _ (radix half : ℕ) (print : ℕ → Run (List ℕ)) where
  printed-IsSigned :
      (n : ℕ)
      → n < half + half
      → ((k : ℕ) → k < half + half → Ends (IsNumeral radix k) (print k))
      → Ends (IsSigned half radix n) (
          if ltb n half
          then print n
          else (print ((half + half - n) % (half + half)) >>= λ digits. ok (minus_sign ∷ digits)))
  unfolding IsSigned
  printed-IsSigned n h each =
      Ends-if (ltb n half) (λ e. Ends-mono (each n h) (λ bs i. inl (ground arith, i)))
        (λ e.
          let l : half ≤ n = ground arith in
          let m : (half + half - n) % (half + half) ≡ half + half - n =
            mod-eq_of_lt (omega arith) in
          Ends-bind (each _ (mod-lt _ (omega arith)))
            (λ digits i. ends (inr (digits, l, refl, rw m at i))))

pub i32toa-IsSigned : (n : ℕ) → n < 2 ^ 32 → Ends (IsSigned (2 ^ 31) 10 n) (i32toa n)
unfolding i32toa
i32toa-IsSigned n h = printed-IsSigned 10 (2 ^ 31) u32toa n h u32toa-IsNumeral

-- For a word of 64 bits and a radix of 2 to 36, i64toa_radix writes the digits of the signed number that
-- the word stands for, behind a minus sign if it is negative, with no zero in front but for the number
-- zero; no write is outside the local arrays, and the loops end.
pub i64toa_radix-IsSigned :
    (n radix : ℕ)
    → n < 2 ^ 64
    → 2 ≤ radix
    → radix ≤ 36
    → Ends (IsSigned (2 ^ 63) radix n) (i64toa_radix n radix)
unfolding i64toa_radix
i64toa_radix-IsSigned n radix h many small =
    printed-IsSigned radix (2 ^ 63) (λ k. u64toa_radix k radix) n h
      (λ k l. u64toa_radix-IsNumeral k radix l many small)

pub i64toa-IsSigned : (n : ℕ) → n < 2 ^ 64 → Ends (IsSigned (2 ^ 63) 10 n) (i64toa n)
unfolding i64toa
i64toa-IsSigned n h = printed-IsSigned 10 (2 ^ 63) u64toa n h u64toa-IsNumeral
