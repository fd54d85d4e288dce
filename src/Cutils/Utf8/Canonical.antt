-- ===== src/Cutils/Utf8/Canonical.antt =====
-- What the decoder accepts is an encoding: no code has two.
use ggjs.Common.{
  ℕ, suc, ◌+◌, ◌*◌, ◌%◌, ◌^◌, ◌≤◌, ◌<◌, ◌≡◌, refl, ap, sym, ◌∙◌, List, [], ◌∷◌, ◌++◌, arith,
}
use ggjs.Cutils.Utf8.{first, cont, collect, code, unicode_to_utf8, unicode_from_utf8}
use ggjs.Cutils.Utf8.Arith.{
  cont_lem, first_0xc0, first_0xe0, first_0xf0, first_0xf8, first_0xfc, shift_in,
}
use ggjs.Cutils.Utf8.Size.{
  encode_ascii, encode_one, encode_two, encode_three, encode_four, encode_five,
}
use ggjs.Cutils.Utf8.Lead.{ascii, one, two, three, four, five, lead}

-- A round that did not fail took a byte that continues.
record Took (left v least c : ℕ) (p r : List ℕ) : Type 0 where
  byte : ℕ
  after : List ℕ
  split : p ≡ byte ∷ after
  lo : 0x80 ≤ byte
  hi : byte < 0xc0
  go_on : collect left (v * 64 + byte % 64) least after ≡ code c r

took :
    (left v least c : ℕ) (p r : List ℕ)
    → collect (suc left) v least p ≡ code c r
    → Took left v least c p r
unfolding collect
took left v least c [] r e = absurd (cc)
took left v least c (b ∷ q) r e = record {
  byte = b;
  after = q;
  split = refl;
  lo = ground arith;
  hi = ground arith;
  go_on = rw (← shift_in v b) (ground arith);
}

collect_end :
    (v least c : ℕ) (p r : List ℕ)
    → collect 0 v least p ≡ code c r
    → (v ≡ c) × (least ≤ c) × (p ≡ r)
unfolding collect
collect_end v least c p r e = ground arith

module _ (b c : ℕ) (p r : List ℕ) where
  ascii_back : b < 0x80 → code b p ≡ code c r → (unicode_to_utf8 c ++ r ≡ b ∷ p) × (c < 2 ^ 31)
  ascii_back h e =
      let same : b ≡ c = ground arith in
      let rest : p ≡ r = ground arith in
      let small : c < 0x80 = omega arith in (rw (encode_ascii c small) (cc), omega arith)

  one_back :
      0xc0 ≤ b
      → b < 0xe0
      → collect 1 (b % 32) 0x80 p ≡ code c r
      → (unicode_to_utf8 c ++ r ≡ b ∷ p) × (c < 2 ^ 31)
  one_back lo hi e =
      let t1 = took 0 (b % 32) 0x80 c p r e in
      let done = collect_end ((b % 32) * 64 + t1.byte % 64) 0x80 c t1.after r t1.go_on in
      let small : c < 0x800 = omega (arith, done.0, t1.lo, t1.hi) in
      let big : 0x80 ≤ c = done.1 in
      let head : first 0xc0 6 c ≡ b = omega (arith, first_0xc0 c small, done.0, t1.lo, t1.hi) in
      let c1 : cont 0 c ≡ t1.byte = omega (arith, cont_lem 0 c, done.0, t1.lo, t1.hi) in
      let bytes : p ≡ t1.byte ∷ r = t1.split ∙ ap (λ (q : List ℕ). t1.byte ∷ q) (done.2) in
      (
        rw (encode_one c big small, head, c1) (ap (λ (q : List ℕ). b ∷ q) (sym bytes)),
        omega (arith, small),
      )

  two_back :
      0xe0 ≤ b
      → b < 0xf0
      → collect 2 (b % 16) 0x800 p ≡ code c r
      → (unicode_to_utf8 c ++ r ≡ b ∷ p) × (c < 2 ^ 31)
  two_back lo hi e =
      let t1 = took 1 (b % 16) 0x800 c p r e in
      let t2 = took 0 ((b % 16) * 64 + t1.byte % 64) 0x800 c t1.after r t1.go_on in
      let done =
        collect_end (((b % 16) * 64 + t1.byte % 64) * 64 + t2.byte % 64) 0x800 c t2.after r
          t2.go_on in
      let small : c < 0x10000 = omega (arith, done.0, t1.lo, t1.hi, t2.lo, t2.hi) in
      let big : 0x800 ≤ c = done.1 in
      let head : first 0xe0 12 c ≡ b =
        omega (arith, first_0xe0 c small, done.0, t1.lo, t1.hi, t2.lo, t2.hi) in
      let c1 : cont 6 c ≡ t1.byte =
        omega (arith, cont_lem 6 c, done.0, t1.lo, t1.hi, t2.lo, t2.hi) in
      let c2 : cont 0 c ≡ t2.byte =
        omega (arith, cont_lem 0 c, done.0, t1.lo, t1.hi, t2.lo, t2.hi) in
      let bytes : p ≡ t1.byte ∷ t2.byte ∷ r =
        t1.split
        ∙ ap (λ (q : List ℕ). t1.byte ∷ q) (t2.split ∙ ap (λ (q : List ℕ). t2.byte ∷ q) (done.2)) in
      (
        rw (encode_two c big small, head, c1, c2) (ap (λ (q : List ℕ). b ∷ q) (sym bytes)),
        omega (arith, small),
      )

  three_back :
      0xf0 ≤ b
      → b < 0xf8
      → collect 3 (b % 8) 0x10000 p ≡ code c r
      → (unicode_to_utf8 c ++ r ≡ b ∷ p) × (c < 2 ^ 31)
  three_back lo hi e =
      let t1 = took 2 (b % 8) 0x10000 c p r e in
      let t2 = took 1 ((b % 8) * 64 + t1.byte % 64) 0x10000 c t1.after r t1.go_on in
      let t3 =
        took 0 (((b % 8) * 64 + t1.byte % 64) * 64 + t2.byte % 64) 0x10000 c t2.after r t2.go_on in
      let done =
        collect_end ((((b % 8) * 64 + t1.byte % 64) * 64 + t2.byte % 64) * 64 + t3.byte % 64)
          0x10000 c t3.after r t3.go_on in
      let small : c < 0x200000 = omega (arith, done.0, t1.lo, t1.hi, t2.lo, t2.hi, t3.lo, t3.hi) in
      let big : 0x10000 ≤ c = done.1 in
      let head : first 0xf0 18 c ≡ b =
        omega (arith, first_0xf0 c small, done.0, t1.lo, t1.hi, t2.lo, t2.hi, t3.lo, t3.hi) in
      let c1 : cont 12 c ≡ t1.byte =
        omega (arith, cont_lem 12 c, done.0, t1.lo, t1.hi, t2.lo, t2.hi, t3.lo, t3.hi) in
      let c2 : cont 6 c ≡ t2.byte =
        omega (arith, cont_lem 6 c, done.0, t1.lo, t1.hi, t2.lo, t2.hi, t3.lo, t3.hi) in
      let c3 : cont 0 c ≡ t3.byte =
        omega (arith, cont_lem 0 c, done.0, t1.lo, t1.hi, t2.lo, t2.hi, t3.lo, t3.hi) in
      let bytes : p ≡ t1.byte ∷ t2.byte ∷ t3.byte ∷ r =
        t1.split
        ∙ ap (λ (q : List ℕ). t1.byte ∷ q)
            (t2.split
              ∙ ap (λ (q : List ℕ). t2.byte ∷ q)
                  (t3.split ∙ ap (λ (q : List ℕ). t3.byte ∷ q) (done.2))) in
      (
        rw (encode_three c big small, head, c1, c2, c3) (ap (λ (q : List ℕ). b ∷ q) (sym bytes)),
        omega (arith, small),
      )

  four_back :
      0xf8 ≤ b
      → b < 0xfc
      → collect 4 (b % 4) 0x200000 p ≡ code c r
      → (unicode_to_utf8 c ++ r ≡ b ∷ p) × (c < 2 ^ 31)
  four_back lo hi e =
      let t1 = took 3 (b % 4) 0x200000 c p r e in
      let t2 = took 2 ((b % 4) * 64 + t1.byte % 64) 0x200000 c t1.after r t1.go_on in
      let t3 =
        took 1 (((b % 4) * 64 + t1.byte % 64) * 64 + t2.byte % 64) 0x200000 c t2.after r t2.go_on in
      let t4 =
        took 0 ((((b % 4) * 64 + t1.byte % 64) * 64 + t2.byte % 64) * 64 + t3.byte % 64) 0x200000 c
          t3.after r t3.go_on in
      let done =
        collect_end
          (((((b % 4) * 64 + t1.byte % 64) * 64 + t2.byte % 64) * 64 + t3.byte % 64) * 64
            + t4.byte % 64)
          0x200000 c t4.after r t4.go_on in
      let small : c < 0x4000000 =
        omega (arith, done.0, t1.lo, t1.hi, t2.lo, t2.hi, t3.lo, t3.hi, t4.lo, t4.hi) in
      let big : 0x200000 ≤ c = done.1 in
      let head : first 0xf8 24 c ≡ b = omega (
        arith,
        first_0xf8 c small,
        done.0,
        t1.lo,
        t1.hi,
        t2.lo,
        t2.hi,
        t3.lo,
        t3.hi,
        t4.lo,
        t4.hi,
      ) in
      let c1 : cont 18 c ≡ t1.byte =
        omega
          (arith, cont_lem 18 c, done.0, t1.lo, t1.hi, t2.lo, t2.hi, t3.lo, t3.hi, t4.lo, t4.hi) in
      let c2 : cont 12 c ≡ t2.byte =
        omega
          (arith, cont_lem 12 c, done.0, t1.lo, t1.hi, t2.lo, t2.hi, t3.lo, t3.hi, t4.lo, t4.hi) in
      let c3 : cont 6 c ≡ t3.byte =
        omega
          (arith, cont_lem 6 c, done.0, t1.lo, t1.hi, t2.lo, t2.hi, t3.lo, t3.hi, t4.lo, t4.hi) in
      let c4 : cont 0 c ≡ t4.byte =
        omega
          (arith, cont_lem 0 c, done.0, t1.lo, t1.hi, t2.lo, t2.hi, t3.lo, t3.hi, t4.lo, t4.hi) in
      let bytes : p ≡ t1.byte ∷ t2.byte ∷ t3.byte ∷ t4.byte ∷ r =
        t1.split
        ∙ ap (λ (q : List ℕ). t1.byte ∷ q)
            (t2.split
              ∙ ap (λ (q : List ℕ). t2.byte ∷ q)
                  (t3.split
                    ∙ ap (λ (q : List ℕ). t3.byte ∷ q)
                        (t4.split ∙ ap (λ (q : List ℕ). t4.byte ∷ q) (done.2)))) in
      (
        rw (encode_four c big small, head, c1, c2, c3, c4) (ap (λ (q : List ℕ). b ∷ q) (sym bytes)),
        omega (arith, small),
      )

  five_back :
      0xfc ≤ b
      → b < 0xfe
      → collect 5 (b % 2) 0x4000000 p ≡ code c r
      → (unicode_to_utf8 c ++ r ≡ b ∷ p) × (c < 2 ^ 31)
  five_back lo hi e =
      let t1 = took 4 (b % 2) 0x4000000 c p r e in
      let t2 = took 3 ((b % 2) * 64 + t1.byte % 64) 0x4000000 c t1.after r t1.go_on in
      let t3 =
        took 2 (((b % 2) * 64 + t1.byte % 64) * 64 + t2.byte % 64) 0x4000000 c t2.after r
          t2.go_on in
      let t4 =
        took 1 ((((b % 2) * 64 + t1.byte % 64) * 64 + t2.byte % 64) * 64 + t3.byte % 64) 0x4000000 c
          t3.after r t3.go_on in
      let t5 =
        took 0
          (((((b % 2) * 64 + t1.byte % 64) * 64 + t2.byte % 64) * 64 + t3.byte % 64) * 64
            + t4.byte % 64)
          0x4000000 c t4.after r t4.go_on in
      let done =
        collect_end
          ((((((b % 2) * 64 + t1.byte % 64) * 64 + t2.byte % 64) * 64 + t3.byte % 64) * 64
                + t4.byte % 64)
              * 64
            + t5.byte % 64)
          0x4000000 c t5.after r t5.go_on in
      let small : c < 0x80000000 =
        omega
          (arith, done.0, t1.lo, t1.hi, t2.lo, t2.hi, t3.lo, t3.hi, t4.lo, t4.hi, t5.lo, t5.hi) in
      let big : 0x4000000 ≤ c = done.1 in
      let head : first 0xfc 30 c ≡ b = omega (
        arith,
        first_0xfc c small,
        done.0,
        t1.lo,
        t1.hi,
        t2.lo,
        t2.hi,
        t3.lo,
        t3.hi,
        t4.lo,
        t4.hi,
        t5.lo,
        t5.hi,
      ) in
      let c1 : cont 24 c ≡ t1.byte = omega (
        arith,
        cont_lem 24 c,
        done.0,
        t1.lo,
        t1.hi,
        t2.lo,
        t2.hi,
        t3.lo,
        t3.hi,
        t4.lo,
        t4.hi,
        t5.lo,
        t5.hi,
      ) in
      let c2 : cont 18 c ≡ t2.byte = omega (
        arith,
        cont_lem 18 c,
        done.0,
        t1.lo,
        t1.hi,
        t2.lo,
        t2.hi,
        t3.lo,
        t3.hi,
        t4.lo,
        t4.hi,
        t5.lo,
        t5.hi,
      ) in
      let c3 : cont 12 c ≡ t3.byte = omega (
        arith,
        cont_lem 12 c,
        done.0,
        t1.lo,
        t1.hi,
        t2.lo,
        t2.hi,
        t3.lo,
        t3.hi,
        t4.lo,
        t4.hi,
        t5.lo,
        t5.hi,
      ) in
      let c4 : cont 6 c ≡ t4.byte = omega (
        arith,
        cont_lem 6 c,
        done.0,
        t1.lo,
        t1.hi,
        t2.lo,
        t2.hi,
        t3.lo,
        t3.hi,
        t4.lo,
        t4.hi,
        t5.lo,
        t5.hi,
      ) in
      let c5 : cont 0 c ≡ t5.byte = omega (
        arith,
        cont_lem 0 c,
        done.0,
        t1.lo,
        t1.hi,
        t2.lo,
        t2.hi,
        t3.lo,
        t3.hi,
        t4.lo,
        t4.hi,
        t5.lo,
        t5.hi,
      ) in
      let bytes : p ≡ t1.byte ∷ t2.byte ∷ t3.byte ∷ t4.byte ∷ t5.byte ∷ r =
        t1.split
        ∙ ap (λ (q : List ℕ). t1.byte ∷ q)
            (t2.split
              ∙ ap (λ (q : List ℕ). t2.byte ∷ q)
                  (t3.split
                    ∙ ap (λ (q : List ℕ). t3.byte ∷ q)
                        (t4.split
                          ∙ ap (λ (q : List ℕ). t4.byte ∷ q)
                              (t5.split ∙ ap (λ (q : List ℕ). t5.byte ∷ q) (done.2))))) in
      (
        rw (encode_five c big small, head, c1, c2, c3, c4, c5)
            (ap (λ (q : List ℕ). b ∷ q) (sym bytes)),
        omega (arith, small),
      )

-- If the decoder accepts, the bytes that it took are the encoding of the code that it returns, which
-- has at most 31 bits: no longer form of a code is accepted.
pub unicode_to_utf8-unicode_from_utf8 :
    (p r : List ℕ) (max_len c : ℕ)
    → unicode_from_utf8 p max_len ≡ code c r
    → (unicode_to_utf8 c ++ r ≡ p) × (c < 2 ^ 31)
unicode_to_utf8-unicode_from_utf8 [] r max_len c e = absurd (unfold unicode_from_utf8 in cc)
unicode_to_utf8-unicode_from_utf8 (b ∷ p) r max_len c e = elim (lead b max_len c p r e) [
  | ascii h k ↦ ascii_back b c p r h k
  | one lo hi k ↦ one_back b c p r lo hi k
  | two lo hi k ↦ two_back b c p r lo hi k
  | three lo hi k ↦ three_back b c p r lo hi k
  | four lo hi k ↦ four_back b c p r lo hi k
  | five lo hi k ↦ five_back b c p r lo hi k
]
