-- ===== src/Dtoa/Printers.antt =====
-- What the printers of whole numbers of dtoa.c write.
use native.Mathlib.Nat.{pow-le-pow_left}
use ggjs.Common.{
  ℕ, zero, suc, ◌+◌, ◌-◌, ◌*◌, ◌/◌, ◌%◌, ◌^◌, ◌<◌, ◌≤◌, List, [], ◌∷◌, ◌++◌, ltb, leb, ◌==◌,
  if◌then◌else◌, ◌≡◌, ◌≢◌, inl, inr, refl, ◌∙◌, arith, Bool-cases, bit_and, lt_or_le, ==_iff, true,
  false,
}
use ggjs.Common.Bits.{agree_below, checks}
use ggjs.Common.Run.{Ends, ends, Ends-if, Ends-bind}
use ggjs.Dtoa.{
  decimal_char, digit_char, limb_digits, u32toa_len, u64toa_bin_len, u32toa, u64toa_high, u64toa,
  u64toa_radix, clz, bin_len,
}
use ggjs.Dtoa.Numeral.{number, AreDigits, IsNumeral, head, number-append, AreDigits-append}
use ggjs.Dtoa.Fixed.{
  limb_digits-number, limb_digits-AreDigits, u32toa_len-limb_digits, u64toa_bin_len-limb_digits,
}
use ggjs.Dtoa.Free.{
  IsCounted-IsNumeral, digits_down-IsNumeral, decimal_down-digits_down, bin_len-IsCounted,
}

pub u32toa-IsNumeral : (n : ℕ) → n < 2 ^ 32 → Ends (IsNumeral 10 n) (u32toa n)
unfolding u32toa
u32toa-IsNumeral n h =
    rw (decimal_down-digits_down 10 n [])
      (digits_down-IsNumeral 10 (omega arith) (omega arith) 9 n (omega arith))

head-append : (cs ds : List ℕ) → head cs ≢ 48 → head (cs ++ ds) ≢ 48
head-append [] ds h = absurd (h refl)
head-append (c ∷ cs) ds h = h

-- Nine digits behind those of a positive number.
IsNumeral-nine :
    (m r : ℕ) (cs : List ℕ)
    → 0 < m
    → r < 1000000000
    → IsNumeral 10 m cs
    → IsNumeral 10 (m * 1000000000 + r) (cs ++ u32toa_len r 9 [])
unfolding number AreDigits
IsNumeral-nine m r cs l h i =
    let low = limb_digits-number 10 (omega arith) (omega arith) r 9 m [] (omega arith) in
    let digits = limb_digits-AreDigits 10 (omega arith) (omega arith) r 9 [] tt in
    let e = u32toa_len-limb_digits r 9 [] in
    let whole = number-append 10 0 cs (limb_digits r 10 9 []) in
    rw e (record {
      value = whole ∙ rw (i.value, low) (omega arith);
      digits = AreDigits-append 10 cs _ i.digits digits;
      shortest = elim i.shortest [
        | inl (z, o) ↦ absurd (omega arith)
        | inr g ↦ inr (head-append cs _ g)
      ];
    })

-- One or two digits.
few-IsNumeral :
    (n : ℕ)
    → 0 < n
    → n < 100
    → IsNumeral 10 n (
        if leb 10 n
        then decimal_char (n / 10) ∷ decimal_char (n % 10) ∷ []
        else decimal_char n ∷ [])
unfolding limb_digits
few-IsNumeral n l h = elim (Bool-cases (leb 10 n)) [
  | inl e ↦
      let top : digit_char (n / 10 % 10) ≡ decimal_char (n / 10) = ground arith in
      let low : digit_char (n % 10) ≡ decimal_char (n % 10) = ground arith in
      let two =
        IsCounted-IsNumeral 10 (omega arith) (omega arith) n 1
          (record { above = inr (ground arith); below = omega arith }) in
      rw e (rw (top, low) at two)
  | inr e ↦
      let one =
        IsCounted-IsNumeral 10 (omega arith) (omega arith) n 0
          (record { above = inr (omega arith); below = ground arith }) in
      let digit : digit_char (n % 10) ≡ decimal_char n = ground arith in rw e (rw digit at one)
]

u64toa_high-IsNumeral : (m : ℕ) → 0 < m → m < 100000000000 → Ends (IsNumeral 10 m) (u64toa_high m)
unfolding u64toa_high
u64toa_high-IsNumeral m l h =
    Ends-if (leb 0x100000000 m)
      (λ e.
        let few = few-IsNumeral (m / 1000000000) (ground arith) (omega arith) in
        let nine =
          IsNumeral-nine (m / 1000000000) (m % 1000000000) _ (ground arith) (omega arith) few in
        let whole : m / 1000000000 * 1000000000 + m % 1000000000 ≡ m = omega arith in
        elim (Bool-cases (leb 10 (m / 1000000000))) [
          | inl g ↦ ends (rw g (rw (whole, g) at nine))
          | inr g ↦ ends (rw g (rw (whole, g) at nine))
        ])
      (λ e. u32toa-IsNumeral m (ground arith))

pub u64toa-IsNumeral : (n : ℕ) → n < 2 ^ 64 → Ends (IsNumeral 10 n) (u64toa n)
unfolding u64toa
u64toa-IsNumeral n h =
    Ends-if (ltb n 0x100000000) (λ e. u32toa-IsNumeral n (ground arith))
      (λ e.
        let big : 0x100000000 ≤ n = ground arith in
        Ends-bind (u64toa_high-IsNumeral (n / 1000000000) (omega arith) (omega arith)) (λ high i.
          let nine =
            IsNumeral-nine (n / 1000000000) (n % 1000000000) high (omega arith) (omega arith) i in
          let whole : n / 1000000000 * 1000000000 + n % 1000000000 ≡ n = omega arith in
          ends (rw whole at nine)))

-- The powers of two among the radixes.
power_of_two :
    (radix : ℕ)
    → 2 ≤ radix
    → radix ≤ 36
    → (bit_and radix (radix - 1) == 0) ≡ true
    → 2 ^ (31 - clz 32 radix) ≡ radix
unfolding clz checks
power_of_two radix many small e =
    let powers : ℕ → ℕ =
      λ y. if leb 2 y then (if bit_and y (y - 1) == 0 then 2 ^ (31 - clz 32 y) else y) else y in
    let some : powers radix ≡ radix = agree_below 37 powers (λ y. y) radix refl (omega arith) in
    let l : leb 2 radix ≡ true = ground arith in rw (l, e) at some

three_or_more : (radix : ℕ) → 2 ≤ radix → (bit_and radix (radix - 1) == 0) ≡ false → 3 ≤ radix
three_or_more radix many other = elim (lt_or_le radix 3) [
  | inl l ↦
      let two : radix ≡ 2 = omega arith in
      let never : true ≡ false = rw two at other in ground arith
  | inr l ↦ l
]

bits_positive : (bits : ℕ) → 2 ≤ 2 ^ bits → 0 < bits
bits_positive zero h = absurd (omega arith)
bits_positive (suc bits) h = omega arith

u64toa_bin_len-IsNumeral :
    (n radix : ℕ)
    → n < 2 ^ 64
    → 2 ≤ radix
    → radix ≤ 36
    → (bit_and radix (radix - 1) == 0) ≡ true
    → IsNumeral radix n (u64toa_bin_len n (31 - clz 32 radix) (bin_len n (31 - clz 32 radix)) [])
u64toa_bin_len-IsNumeral n radix h many small two =
    let same = power_of_two radix many small two in
    let bits : ℕ = 31 - clz 32 radix in
    let (len, count, c) = bin_len-IsCounted n bits (bits_positive bits (omega arith)) h in
    rw (u64toa_bin_len-limb_digits n bits (bin_len n bits) [], count, same)
      (IsCounted-IsNumeral radix many small n len (rw same at c))

-- For a word of 64 bits and a radix of 2 to 36, u64toa_radix writes the digits of the number, with no
-- zero in front but for the number zero; no write is outside the local arrays, and the loops end.
pub u64toa_radix-IsNumeral :
    (n radix : ℕ)
    → n < 2 ^ 64
    → 2 ≤ radix
    → radix ≤ 36
    → Ends (IsNumeral radix n) (u64toa_radix n radix)
unfolding u64toa_radix
u64toa_radix-IsNumeral n radix h many small =
    Ends-if (radix == 10) (λ e. let ten = (==_iff radix 10).0 e in rw ten (u64toa-IsNumeral n h))
      (λ e.
        Ends-if (bit_and radix (radix - 1) == 0)
          (λ two. ends (u64toa_bin_len-IsNumeral n radix h many small two))
          (λ other.
            let three : 3 ≤ radix = three_or_more radix many other in
            let enough : 3 ^ 41 ≤ radix ^ 41 = pow-le-pow_left three 41 in
            digits_down-IsNumeral radix many small 40 n (omega arith)))
