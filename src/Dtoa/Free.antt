-- ===== src/Dtoa/Free.antt =====
-- The printers of dtoa.c that find out how many digits they write.
use native.Mathlib.Nat.{
  one-le-pow, add-div_right, pow-suc, pow-zero, div-lt_iff_lt-mul, pow-le-pow_right, div-add-mod,
  mod-eq_of_lt, mod-lt,
}
use ggjs.Common.{
  ℕ, zero, suc, ◌+◌, ◌*◌, ◌/◌, ◌%◌, ◌^◌, ◌<◌, ◌≤◌, List, [], ◌∷◌, ltb, ◌==◌, ◌≡◌, ◌≢◌, ◌⊎◌, inl,
  inr, refl, ap, ◌∙◌, arith, Bool-cases, lt_or_le, ==_iff, false,
}
use ggjs.BigInt.Mp.Shift.{pow_mul}
use ggjs.Common.Run.{Ends, ends, Ends-if, Ends-mono}
use ggjs.Dtoa.{digit_char, decimal_char, limb_digits, digits_down, decimal_down, clz, bin_len}
use ggjs.Dtoa.Numeral.{number, AreDigits, IsNumeral}
use ggjs.Dtoa.Fixed.{limb_digits-IsNumeral}

-- `suc len` digits are those of the number, with none in front that is not needed.
pub record IsCounted (radix n len : ℕ) : Type 0 where
  pub above : ((n ≡ 0) × (len ≡ 0)) ⊎ (radix ^ len ≤ n)
  pub below : n < radix ^ suc len

ne_zero : (q : ℕ) → (q == 0) ≡ false → q ≢ 0
ne_zero q e = ground arith

module _ (radix : ℕ) (many : 2 ≤ radix) (small : radix ≤ 36) where
  zero-IsNumeral : IsNumeral radix 0 (48 ∷ [])
  unfolding number AreDigits
  zero-IsNumeral = record {
    value = omega arith;
    digits = (omega arith, refl, tt);
    shortest = inl (refl, refl);
  }

  pub IsCounted-IsNumeral :
      (n len : ℕ) → IsCounted radix n len → IsNumeral radix n (limb_digits n radix (suc len) [])
  unfolding limb_digits
  IsCounted-IsNumeral n len c =
      let m : (0 % radix ≡ 0) = mod-eq_of_lt (omega arith) in
      elim c.above [
        | inl (e, l) ↦ rw (e, l, m) zero-IsNumeral
        | inr h ↦ limb_digits-IsNumeral radix small (omega arith) n len h c.below
      ]

  one-IsCounted : (n : ℕ) → n / radix ≡ 0 → IsCounted radix n 0
  one-IsCounted n h =
      let one : radix ^ 1 ≡ radix = pow-suc radix 0 ∙ rw (pow-zero radix) (omega arith) in
      let whole = div-add-mod n radix in
      let low : n % radix < radix = mod-lt n (omega arith) in
      let lt : n < radix = omega (arith, rw h at whole) in
      record {
        above = elim (lt_or_le n 1) [
          | inl q ↦ inl (omega arith, refl)
          | inr q ↦ inr (rw (pow-zero radix) q)
        ];
        below = rw one lt;
      }

  IsCounted-suc :
      (n len : ℕ) → n / radix ≢ 0 → IsCounted radix (n / radix) len → IsCounted radix n (suc len)
  IsCounted-suc n len h c =
      let positive : 0 < radix = omega arith in
      let over : radix ^ suc len ≤ n = elim c.above [
        | inl (e, l) ↦ absurd (h e)
        | inr g ↦ elim (lt_or_le n (radix ^ suc len)) [
          | inl q ↦
              absurd (omega (arith, (div-lt_iff_lt-mul positive).1 (rw (pow-suc radix len) at q)))
          | inr q ↦ q
        ]
      ] in
      record {
        above = inr over;
        below = rw (pow-suc radix (suc len)) ((div-lt_iff_lt-mul positive).0 c.below);
      }

  digits_down-limb_digits :
      (room n : ℕ) (q : List ℕ)
      → n < radix ^ suc room
      → Ends
          (λ bs. (len : ℕ) × (bs ≡ limb_digits n radix (suc len) q) × IsCounted radix n len)
          (digits_down (suc room) n radix q)
  unfolding digits_down limb_digits
  digits_down-limb_digits zero n q h =
      let positive : 0 < radix = omega arith in
      let e : radix ^ 1 ≡ radix ^ 0 * radix = pow-suc radix 0 in
      let up : n / radix < radix ^ 0 = (div-lt_iff_lt-mul positive).1 (rw e at h) in
      let last : n / radix ≡ 0 = omega (arith, rw (pow-zero radix) at up) in
      rw last (ends (0, refl, one-IsCounted n last))
  digits_down-limb_digits (suc room) n q h =
      let up : n / radix < radix ^ suc room =
        (div-lt_iff_lt-mul (omega arith)).1 (rw (pow-suc radix (suc room)) at h) in
      Ends-if (n / radix == 0) (λ e. ends (0, refl, one-IsCounted n ((==_iff (n / radix) 0).0 e)))
        (λ e.
          Ends-mono (digits_down-limb_digits room (n / radix) (digit_char (n % radix) ∷ q) up)
            (λ bs (len, same, c).
              (suc len, same, IsCounted-suc n len (λ z. ne_zero (n / radix) e z) c)))

  -- The loop to the last digit ends in the local array.
  pub digits_down-IsNumeral :
      (room n : ℕ)
      → n < radix ^ suc room
      → Ends (IsNumeral radix n) (digits_down (suc room) n radix [])
  digits_down-IsNumeral room n h =
      Ends-mono (digits_down-limb_digits room n [] h)
        (λ bs (len, same, c). rw same (IsCounted-IsNumeral n len c))

pub decimal_down-digits_down :
    (room n : ℕ) (q : List ℕ) → decimal_down room n q ≡ digits_down room n 10 q
unfolding decimal_down digits_down
decimal_down-digits_down zero n q = refl
decimal_down-digits_down (suc room) n q =
    let e : digit_char (n % 10) ≡ decimal_char (n % 10) = ground arith in
    let same = decimal_down-digits_down room (n / 10) (decimal_char (n % 10) ∷ q) in
    rw (e, same) refl

-- The highest bit of a word.
pub clz-highest :
    (w n : ℕ) → 0 < n → n < 2 ^ w → (b : ℕ) × (clz w n + suc b ≡ w) × (2 ^ b ≤ n) × (n < 2 ^ suc b)
unfolding clz
clz-highest zero n l h = absurd (omega arith)
clz-highest (suc w) n l h = elim (Bool-cases (ltb n (2 ^ w))) [
  | inl e ↦
      let (b, s, low, high) = clz-highest w n l (ground arith) in (b, rw e (omega arith), low, high)
  | inr e ↦ (w, rw e (omega arith), ground arith, h)
]

-- The digits above the highest bit.
highest-IsCounted :
    (n radix_bits b : ℕ)
    → 0 < radix_bits
    → 2 ^ b ≤ n
    → n < 2 ^ suc b
    → ((b + radix_bits) / radix_bits ≡ suc (b / radix_bits))
      × IsCounted (2 ^ radix_bits) n (b / radix_bits)
highest-IsCounted n radix_bits b positive low high =
    let len : ℕ = b / radix_bits in
    let under : radix_bits * len ≤ b = omega (arith, div-add-mod b radix_bits) in
    let over : suc b ≤ radix_bits * suc len =
      omega (arith, div-add-mod b radix_bits, mod-lt b positive) in
    let two : 0 < 2 = omega arith in
    let first : 2 ^ (radix_bits * len) ≤ 2 ^ b = pow-le-pow_right two under in
    let last : 2 ^ suc b ≤ 2 ^ (radix_bits * suc len) = pow-le-pow_right two over in
    let at_least : 2 ^ (radix_bits * len) ≤ n = omega arith in
    let less : n < 2 ^ (radix_bits * suc len) = omega arith in
    (
      omega (arith, add-div_right b positive),
      record {
        above = inr (rw (pow_mul radix_bits len) at_least);
        below = rw (pow_mul radix_bits (suc len)) less;
      },
    )

-- `bin_len` counts the digits of a radix of 2^radix_bits.
pub bin_len-IsCounted :
    (n radix_bits : ℕ)
    → 0 < radix_bits
    → n < 2 ^ 64
    → (len : ℕ) × (bin_len n radix_bits ≡ suc len) × IsCounted (2 ^ radix_bits) n len
unfolding bin_len
bin_len-IsCounted n radix_bits positive h = elim (Bool-cases (n == 0)) [
  | inl e ↦
      let z : n ≡ 0 = (==_iff n 0).0 e in
      let one : 1 ≤ (2 ^ radix_bits) ^ 1 =
        one-le-pow 1 (2 ^ radix_bits) (one-le-pow radix_bits 2 (omega arith)) in
      (0, rw e refl, record { above = inl (z, refl); below = omega arith })
  | inr e ↦
      let (b, s, low, high) = clz-highest 64 n (ground arith) h in
      let (count, c) = highest-IsCounted n radix_bits b positive low high in
      (b / radix_bits, rw e (ap (λ t. t / radix_bits) (omega arith) ∙ count), c)
]
