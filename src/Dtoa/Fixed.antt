-- ===== src/Dtoa/Fixed.antt =====
-- The printers of a given number of digits of dtoa.c.
use native.Mathlib.Nat.{pow-suc, div-add-mod, pow-zero, div-lt_iff_lt-mul, mod-lt, mod-eq_of_lt}
use ggjs.Common.{
  ℕ, zero, suc, ◌+◌, ◌*◌, ◌/◌, ◌%◌, ◌^◌, ◌<◌, ◌≤◌, List, [], ◌∷◌, ◌≡◌, ◌≢◌, inl, inr, refl, ap, ◌∙◌,
  arith, Bool-cases, length, lt_or_le, ◌==◌, ==_iff,
}
use ggjs.Common.Bits.{bit_and-low}
use ggjs.Dtoa.{digit_char, decimal_char, limb_digits, u32toa_len, u64toa_bin_len, limb_to_a}
use ggjs.Dtoa.Numeral.{
  number, AreDigits, AreDigits-cons, digit_of-digit_char, head, IsNumeral, head-digit_char,
}

-- One digit more.
horner : (v r p n : ℕ) → (v * p + n / r) * r + n % r ≡ v * (r * p) + n
horner v r p n = omega (arith, div-add-mod n r)

length-limb_digits :
    (n radix len : ℕ) (after : List ℕ) → length (limb_digits n radix len after) ≡ len + length after
unfolding limb_digits
length-limb_digits n radix zero after = omega arith
length-limb_digits n radix (suc len) after =
    omega (arith, length-limb_digits (n / radix) radix len (digit_char (n % radix) ∷ after))

module _ (radix : ℕ) (small : radix ≤ 36) (pos : 0 < radix) where
  pub limb_digits-number :
      (n len v : ℕ) (after : List ℕ)
      → n < radix ^ len
      → number radix v (limb_digits n radix len after) ≡ number radix (v * radix ^ len + n) after
  unfolding limb_digits number
  limb_digits-number n zero v after h =
      let e = pow-zero radix in ap (λ x. number radix x after) (rw e (grind (arith, rw e at h)))
  limb_digits-number n (suc len) v after h =
      let e = pow-suc radix len in
      let up : n / radix < radix ^ len = (div-lt_iff_lt-mul pos).1 (rw e at h) in
      let digit = digit_of-digit_char (n % radix) (omega (arith, mod-lt n pos)) in
      limb_digits-number (n / radix) len v (digit_char (n % radix) ∷ after) up
      ∙ ap (λ x. number radix x after)
          (rw (digit, e) (omega (arith, horner v radix (radix ^ len) n)))

  pub limb_digits-AreDigits :
      (n len : ℕ) (after : List ℕ)
      → AreDigits radix after
      → AreDigits radix (limb_digits n radix len after)
  unfolding limb_digits
  limb_digits-AreDigits n zero after a = a
  limb_digits-AreDigits n (suc len) after a =
      limb_digits-AreDigits (n / radix) len _
        (AreDigits-cons radix (n % radix) after small (mod-lt n pos) a)

  limb_digits-head :
      (n len : ℕ) (after : List ℕ)
      → radix ^ len ≤ n
      → n < radix ^ suc len
      → head (limb_digits n radix (suc len) after) ≢ 48
  unfolding limb_digits
  limb_digits-head n zero after l h =
      let z = pow-zero radix in
      let one : radix ^ 1 ≡ radix = pow-suc radix 0 ∙ rw z (omega arith) in
      let hn : n < radix = rw one at h in
      rw (mod-eq_of_lt hn) (head-digit_char n (rw z at l) (omega arith))
  limb_digits-head n (suc len) after l h =
      let upper : n / radix < radix ^ suc len =
        (div-lt_iff_lt-mul pos).1 (rw (pow-suc radix (suc len)) at h) in
      let lower : radix ^ len ≤ n / radix = elim (lt_or_le (n / radix) (radix ^ len)) [
        | inl q ↦ absurd (omega (arith, (div-lt_iff_lt-mul pos).0 q, rw (pow-suc radix len) at l))
        | inr q ↦ q
      ] in
      limb_digits-head (n / radix) len (digit_char (n % radix) ∷ after) lower upper

  -- As many digits as it takes.
  pub limb_digits-IsNumeral :
      (n len : ℕ)
      → radix ^ len ≤ n
      → n < radix ^ suc len
      → IsNumeral radix n (limb_digits n radix (suc len) [])
  unfolding number AreDigits
  limb_digits-IsNumeral n len l h = record {
    value = limb_digits-number n (suc len) 0 [] h ∙ omega arith;
    digits = limb_digits-AreDigits n (suc len) [] tt;
    shortest = inr (limb_digits-head n len [] l h);
  }

pub u32toa_len-limb_digits :
    (n len : ℕ) (after : List ℕ) → u32toa_len n len after ≡ limb_digits n 10 len after
unfolding u32toa_len limb_digits
u32toa_len-limb_digits n zero after = refl
u32toa_len-limb_digits n (suc len) after =
    let e : digit_char (n % 10) ≡ decimal_char (n % 10) = ground arith in
    rw e (u32toa_len-limb_digits (n / 10) len (decimal_char (n % 10) ∷ after))

pub u64toa_bin_len-limb_digits :
    (n radix_bits len : ℕ) (after : List ℕ)
    → u64toa_bin_len n radix_bits len after ≡ limb_digits n (2 ^ radix_bits) len after
unfolding u64toa_bin_len limb_digits
u64toa_bin_len-limb_digits n radix_bits zero after = refl
u64toa_bin_len-limb_digits n radix_bits (suc len) after = rw (bit_and-low radix_bits n) (
    u64toa_bin_len-limb_digits (n / 2 ^ radix_bits) radix_bits len
      (digit_char (n % 2 ^ radix_bits) ∷ after))

-- If the radix is between 1 and 36 and n < radix^len, limb_to_a writes `len` characters, which are
-- digits of the radix and stand for n.
pub limb_to_a-number :
    (n radix len : ℕ)
    → radix ≤ 36
    → 0 < radix
    → n < radix ^ len
    → (number radix 0 (limb_to_a n radix len) ≡ n)
      × AreDigits radix (limb_to_a n radix len)
      × (length (limb_to_a n radix len) ≡ len)
unfolding limb_to_a number AreDigits
limb_to_a-number n radix len small pos h =
    let all = limb_digits n radix len [] in
    let right : (number radix 0 all ≡ n) × AreDigits radix all × (length all ≡ len) = (
      limb_digits-number radix small pos n len 0 [] h ∙ omega arith,
      limb_digits-AreDigits radix small pos n len [] tt,
      length-limb_digits n radix len [] ∙ omega arith,
    ) in
    elim (Bool-cases (radix == 10)) [
      | inl e ↦
          let ten = (==_iff radix 10).0 e in
          rw (e, u32toa_len-limb_digits n len [], ten) (rw ten at right)
      | inr e ↦ rw e right
    ]
