-- ===== src/Cutils/Utf8/RoundTrip.antt =====
-- Decoding after encoding.
use ggjs.Common.{
  ℕ, suc, ◌+◌, ◌*◌, ◌/◌, ◌%◌, ◌^◌, ◌≤◌, ◌<◌, ◌≡◌, ap, ◌∙◌, List, ◌∷◌, ◌++◌, length, arith,
}
use ggjs.Cutils.Utf8.{first, cont, collect, code, unicode_to_utf8, unicode_from_utf8}
use ggjs.Cutils.Utf8.Arith.{
  cont_lem, first_0xc0, first_0xe0, first_0xf0, first_0xf8, first_0xfc, collect-cont, collect-zero,
  start_one, start_two, start_three, start_four, start_five,
}
use ggjs.Cutils.Utf8.Size.{
  Size, ascii, one, two, three, four, five, size, encode_ascii, encode_one, encode_two,
  encode_three, encode_four, encode_five,
}

-- A byte that the encoder made goes in as six bits.
module _ (left v least k c : ℕ) (p : List ℕ) where
  next : collect (suc left) v least (cont k c ∷ p) ≡ collect left (v * 64 + c / 2 ^ k % 64) least p
  next = rw (cont_lem k c) (
      collect-cont left v least (c / 2 ^ k % 64 + 0x80) p (omega arith) (omega arith)
      ∙ ap (λ (t : ℕ). collect left t least p) (omega arith))

-- Each length of the encoding, in front of more bytes.
module _ (c max_len : ℕ) (rest : List ℕ) where
  one_more :
      0x80 ≤ c
      → c < 0x800
      → 2 ≤ max_len
      → unicode_from_utf8 (first 0xc0 6 c ∷ cont 0 c ∷ rest) max_len ≡ code c rest
  one_more lo hi room =
      let b = first 0xc0 6 c in
      let e = first_0xc0 c hi in
      start_one b max_len (cont 0 c ∷ rest) (omega (arith, e)) (omega (arith, e)) room
      ∙ next 0 (b % 32) 0x80 0 c (rest)
      ∙ collect-zero ((b % 32) * 64 + c / 2 ^ 0 % 64) 0x80 rest (omega (arith, e))
      ∙ ap (λ (t : ℕ). code t rest) (omega (arith, e))

  two_more :
      0x800 ≤ c
      → c < 0x10000
      → 3 ≤ max_len
      → unicode_from_utf8 (first 0xe0 12 c ∷ cont 6 c ∷ cont 0 c ∷ rest) max_len ≡ code c rest
  two_more lo hi room =
      let b = first 0xe0 12 c in
      let e = first_0xe0 c hi in
      start_two b max_len (cont 6 c ∷ cont 0 c ∷ rest) (omega (arith, e)) (omega (arith, e)) room
      ∙ next 1 (b % 16) 0x800 6 c (cont 0 c ∷ rest)
      ∙ next 0 ((b % 16) * 64 + c / 2 ^ 6 % 64) 0x800 0 c (rest)
      ∙ collect-zero (((b % 16) * 64 + c / 2 ^ 6 % 64) * 64 + c / 2 ^ 0 % 64) 0x800 rest
          (omega (arith, e))
      ∙ ap (λ (t : ℕ). code t rest) (omega (arith, e))

  three_more :
      0x10000 ≤ c
      → c < 0x200000
      → 4 ≤ max_len
      → unicode_from_utf8 (first 0xf0 18 c ∷ cont 12 c ∷ cont 6 c ∷ cont 0 c ∷ rest) max_len
        ≡ code c rest
  three_more lo hi room =
      let b = first 0xf0 18 c in
      let e = first_0xf0 c hi in
      start_three b max_len (cont 12 c ∷ cont 6 c ∷ cont 0 c ∷ rest) (omega (arith, e))
        (omega (arith, e)) room
      ∙ next 2 (b % 8) 0x10000 12 c (cont 6 c ∷ cont 0 c ∷ rest)
      ∙ next 1 ((b % 8) * 64 + c / 2 ^ 12 % 64) 0x10000 6 c (cont 0 c ∷ rest)
      ∙ next 0 (((b % 8) * 64 + c / 2 ^ 12 % 64) * 64 + c / 2 ^ 6 % 64) 0x10000 0 c (rest)
      ∙ collect-zero
          ((((b % 8) * 64 + c / 2 ^ 12 % 64) * 64 + c / 2 ^ 6 % 64) * 64 + c / 2 ^ 0 % 64) 0x10000
          rest (omega (arith, e))
      ∙ ap (λ (t : ℕ). code t rest) (omega (arith, e))

  four_more :
      0x200000 ≤ c
      → c < 0x4000000
      → 5 ≤ max_len
      → unicode_from_utf8
          (first 0xf8 24 c ∷ cont 18 c ∷ cont 12 c ∷ cont 6 c ∷ cont 0 c ∷ rest)
          max_len
        ≡ code c rest
  four_more lo hi room =
      let b = first 0xf8 24 c in
      let e = first_0xf8 c hi in
      start_four b max_len (cont 18 c ∷ cont 12 c ∷ cont 6 c ∷ cont 0 c ∷ rest) (omega (arith, e))
        (omega (arith, e)) room
      ∙ next 3 (b % 4) 0x200000 18 c (cont 12 c ∷ cont 6 c ∷ cont 0 c ∷ rest)
      ∙ next 2 ((b % 4) * 64 + c / 2 ^ 18 % 64) 0x200000 12 c (cont 6 c ∷ cont 0 c ∷ rest)
      ∙ next 1 (((b % 4) * 64 + c / 2 ^ 18 % 64) * 64 + c / 2 ^ 12 % 64) 0x200000 6 c
          (cont 0 c ∷ rest)
      ∙ next 0 ((((b % 4) * 64 + c / 2 ^ 18 % 64) * 64 + c / 2 ^ 12 % 64) * 64 + c / 2 ^ 6 % 64)
          0x200000 0 c (rest)
      ∙ collect-zero
          (((((b % 4) * 64 + c / 2 ^ 18 % 64) * 64 + c / 2 ^ 12 % 64) * 64 + c / 2 ^ 6 % 64) * 64
            + c / 2 ^ 0 % 64)
          0x200000 rest (omega (arith, e))
      ∙ ap (λ (t : ℕ). code t rest) (omega (arith, e))

  five_more :
      0x4000000 ≤ c
      → c < 0x80000000
      → 6 ≤ max_len
      → unicode_from_utf8
          (first 0xfc 30 c ∷ cont 24 c ∷ cont 18 c ∷ cont 12 c ∷ cont 6 c ∷ cont 0 c ∷ rest)
          max_len
        ≡ code c rest
  five_more lo hi room =
      let b = first 0xfc 30 c in
      let e = first_0xfc c hi in
      start_five b max_len (cont 24 c ∷ cont 18 c ∷ cont 12 c ∷ cont 6 c ∷ cont 0 c ∷ rest)
        (omega (arith, e)) (omega (arith, e)) room
      ∙ next 4 (b % 2) 0x4000000 24 c (cont 18 c ∷ cont 12 c ∷ cont 6 c ∷ cont 0 c ∷ rest)
      ∙ next 3 ((b % 2) * 64 + c / 2 ^ 24 % 64) 0x4000000 18 c
          (cont 12 c ∷ cont 6 c ∷ cont 0 c ∷ rest)
      ∙ next 2 (((b % 2) * 64 + c / 2 ^ 24 % 64) * 64 + c / 2 ^ 18 % 64) 0x4000000 12 c
          (cont 6 c ∷ cont 0 c ∷ rest)
      ∙ next 1 ((((b % 2) * 64 + c / 2 ^ 24 % 64) * 64 + c / 2 ^ 18 % 64) * 64 + c / 2 ^ 12 % 64)
          0x4000000 6 c (cont 0 c ∷ rest)
      ∙ next 0
          (((((b % 2) * 64 + c / 2 ^ 24 % 64) * 64 + c / 2 ^ 18 % 64) * 64 + c / 2 ^ 12 % 64) * 64
            + c / 2 ^ 6 % 64)
          0x4000000 0 c (rest)
      ∙ collect-zero
          ((((((b % 2) * 64 + c / 2 ^ 24 % 64) * 64 + c / 2 ^ 18 % 64) * 64 + c / 2 ^ 12 % 64) * 64
                + c / 2 ^ 6 % 64)
              * 64
            + c / 2 ^ 0 % 64)
          0x4000000 rest (omega (arith, e))
      ∙ ap (λ (t : ℕ). code t rest) (omega (arith, e))

ascii_more :
    (c max_len : ℕ) (rest : List ℕ) → c < 0x80 → unicode_from_utf8 (c ∷ rest) max_len ≡ code c rest
unfolding unicode_from_utf8
ascii_more c max_len rest h = ground arith

-- Any code of at most 31 bits comes back from its encoding, whatever bytes follow, if `max_len`
-- admits the encoding.
pub unicode_from_utf8-unicode_to_utf8 :
    (c max_len : ℕ) (rest : List ℕ)
    → c < 2 ^ 31
    → length (unicode_to_utf8 c) ≤ max_len
    → unicode_from_utf8 (unicode_to_utf8 c ++ rest) max_len ≡ code c rest
unicode_from_utf8-unicode_to_utf8 c max_len rest h = go (size c h)
  where
    go :
        Size c
        → length (unicode_to_utf8 c) ≤ max_len
        → unicode_from_utf8 (unicode_to_utf8 c ++ rest) max_len ≡ code c rest
    go (ascii p) room = rw (encode_ascii c p) (ascii_more c max_len rest p)
    go (one lo hi) room =
        rw (encode_one c lo hi) (one_more c max_len rest lo hi (rw (encode_one c lo hi) at room))
    go (two lo hi) room =
        rw (encode_two c lo hi) (two_more c max_len rest lo hi (rw (encode_two c lo hi) at room))
    go (three lo hi) room =
        rw (encode_three c lo hi)
          (three_more c max_len rest lo hi (rw (encode_three c lo hi) at room))
    go (four lo hi) room =
        rw (encode_four c lo hi) (four_more c max_len rest lo hi (rw (encode_four c lo hi) at room))
    go (five lo hi) room =
        rw (encode_five c lo hi) (five_more c max_len rest lo hi (rw (encode_five c lo hi) at room))
