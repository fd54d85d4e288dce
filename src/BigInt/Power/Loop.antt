-- ===== src/BigInt/Power/Loop.antt =====
-- The loop of `js_bigint_pow`, which squares and multiplies.
use native.Mathlib.Nat.{
  div-eq_of_lt, div-div-eq-div-mul, pow-suc, mul-le-mul_right, one-le-pow, div-le_self,
  add-mul-div_left,
}
use ggjs.Common.{
  ℕ, zero, suc, ◌+◌, ◌-◌, ◌*◌, ◌/◌, ◌%◌, ◌^◌, ◌≤◌, ◌<◌, ◌≡◌, refl, ap, sym, ◌∙◌, true, false, List,
  [], ◌∷◌, length, ltb, ◌==◌, arith, Bool-cases, inl, inr,
}
use ggjs.Common.Int.{◌*ℤ◌}
use ggjs.BigInt.Repr.{integer}
use ggjs.BigInt.Arith.{Memory, big, max_size}
use ggjs.BigInt.Arith.Extend.{IsBig}
use ggjs.BigInt.Arith.Add.{with_new-granted}
use ggjs.BigInt.Multiply.{js_bigint_mul}
use ggjs.BigInt.Multiply.Product.{js_bigint_mul-integer}
use ggjs.BigInt.Power.{or_null, pow_rounds, pow_loop, int32_max}
use ggjs.BigInt.Power.Integers.{◌^ℤ◌, ^ℤ-add, ^ℤ-one}
use ggjs.Dtoa.{clz}
use ggjs.Dtoa.Free.{clz-highest}

-- Memory is there for what the size of a `JSBigInt` allows.
unfoldable pub IsGranting : Memory → Type 0
IsGranting mem = (n : ℕ) → n ≤ max_size → mem.malloc n ≡ true

pub top_bit : (e b : ℕ) → 2 ^ b ≤ e → e < 2 ^ suc b → e / 2 ^ b ≡ 1
top_bit e b low high =
    let p = pow-suc 2 b in
    let some : 0 < 2 ^ b = one-le-pow b 2 (omega arith) in
    let rest : e ≡ e - 2 ^ b + 2 ^ b * 1 = omega arith in
    let small : (e - 2 ^ b) / 2 ^ b ≡ 0 = div-eq_of_lt (omega (arith, p)) in
    ap (λ n. n / 2 ^ b) rest ∙ add-mul-div_left (e - 2 ^ b) 1 some ∙ omega (arith, small)

module _ (mem : Memory) (granting : IsGranting mem) (a : List ℕ) (ha : IsBig a) where
  -- A power of `a`, in no more limbs than its factors have.
  pub record IsPower (n : ℕ) (t : List ℕ) : Type 0 where
    pub is_power : integer t ≡ integer a ^ℤ n
    pub is_big : IsBig t
    pub size : length t ≤ n * length a

  product-IsPower :
      (m n : ℕ) (s t : List ℕ)
      → IsPower m s
      → IsPower n t
      → (m + n) * length a ≤ max_size
      → (u : List ℕ) × (js_bigint_mul mem s t ≡ big u) × IsPower (m + n) u
  unfolding IsGranting
  product-IsPower m n s t p q small =
      let fits : length s + length t ≤ max_size = omega (arith, p.size, q.size) in
      let (u, ran, product, i, size) =
        js_bigint_mul-integer mem s t p.is_big q.is_big fits
          (granting (length s + length t) fits) in
      (
        u,
        ran,
        record {
          is_power =
              product
              ∙ ap (λ z. z *ℤ integer t) p.is_power
              ∙ ap (λ z. (integer a ^ℤ m) *ℤ z) q.is_power
              ∙ sym (^ℤ-add (integer a) m n);
          is_big = i;
          size = omega (arith, size, p.size, q.size);
        },
      )

  self-IsPower : IsPower 1 a
  self-IsPower = record { is_power = sym (^ℤ-one (integer a)); is_big = ha; size = omega arith }

  pow_rounds-IsPower :
      (e rounds : ℕ) (r : List ℕ)
      → e * length a ≤ max_size
      → IsPower (e / 2 ^ rounds) r
      → (t : List ℕ) × (pow_rounds mem a e rounds r ≡ big t) × IsPower e t
  unfolding pow_rounds or_null
  pow_rounds-IsPower e zero r small p =
      let whole : e / 1 ≡ e = omega arith in (r, refl, rw whole at p)
  pow_rounds-IsPower e (suc i) r small p =
      let g : ℕ = e / 2 ^ i in
      let half : e / 2 ^ suc i ≡ g / 2 =
        ap (λ q. e / q) (pow-suc 2 i) ∙ sym (div-div-eq-div-mul e (2 ^ i) 2) in
      let h : ℕ = g / 2 in
      let p' : IsPower h r = rw half at p in
      let less : g ≤ e = div-le_self e (2 ^ i) in
      let size = mul-le-mul_right (length a) less in
      let twice : h + h ≤ g = omega arith in
      let twice_size = mul-le-mul_right (length a) twice in
      let (r1, ran1, p1) = product-IsPower h h r r p' p' (omega (arith, size, twice_size)) in
      elim (Bool-cases (g % 2 == 0)) [
        | inl z ↦
            let even : h + h ≡ g = ground arith in
            let (t, ran, q) = pow_rounds-IsPower e i r1 small (rw even at p1) in
            (t, rw (ran1, z) ran, q)
        | inr z ↦
            let odd : h + h + 1 ≡ g = ground arith in
            let odd_size : (h + h + 1) * length a ≡ g * length a = ap (λ n. n * length a) odd in
            let (r2, ran2, p2) =
              product-IsPower (h + h) 1 r1 a p1 self-IsPower (omega (arith, size, odd_size)) in
            let (t, ran, q) = pow_rounds-IsPower e i r2 small (rw odd at p2) in
            (t, rw (ran1, z, ran2) ran, q)
      ]

  -- The loop for an exponent of one limb.
  pub pow_loop-IsPower :
      (e : ℕ)
      → 0 < e
      → e < 2 ^ 31
      → e * length a ≤ max_size
      → (t : List ℕ) × (pow_loop mem a (e ∷ []) ≡ big t) × IsPower e t
  unfolding pow_loop IsGranting
  pow_loop-IsPower e some small fits =
      let (b, count, low, high) = clz-highest 32 e some (omega arith) in
      let rounds : 32 - clz 32 e - 1 ≡ b = omega (arith, count) in
      let top : e / 2 ^ b ≡ 1 = top_bit e b low high in
      let more = mul-le-mul_right (length a) some in
      let room : length a ≤ max_size = omega (arith, more) in
      let (t, ran, q) = pow_rounds-IsPower e b a fits (rw top self-IsPower) in
      let allowed : ltb int32_max e ≡ false = ground arith in
      (
        t,
        rw
            (
              allowed,
              rounds,
              with_new-granted mem (length a) (pow_rounds mem a e b a) room
                  (granting (length a) room),
            )
            ran,
        q,
      )
