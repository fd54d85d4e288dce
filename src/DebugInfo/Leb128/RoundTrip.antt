-- ===== src/DebugInfo/Leb128/RoundTrip.antt =====
-- Reading what was written.
use ggjs.Common.{
  ◌≤◌, not_lt→ltb, bit_xor, ◌*◌, ℕ, zero, suc, ◌+◌, ◌-◌, ◌*◌, ◌/◌, ◌%◌, ◌^◌, ◌<◌, ◌≡◌, refl, ap,
  ◌∙◌, true, false, List, ◌++◌, some, ◌==◌, bit_and, bit_or, arith, lt→ltb,
}
use mathlib.Core.Path.{ap₂}
use ggjs.Cutils.DynBuf.{DynBuf, ReallocFunc}
use ggjs.Cutils.DynBuf.Memory.{IsDynBuf, IsRealloc}
use native.Mathlib.Nat.{pow-suc}
use native.Mathlib.Decide.{dec_lt}
use ggjs.Common.Bits.{bit_xor-zero, bit_xor-ones, bit_and-low, bit_or-below, agree_below, checks}
use ggjs.DebugInfo.Leb128.{
  dbuf_put_leb128, dbuf_put_sleb128, get_sleb128, minus, unfolded, get_rounds, get_leb128, u32,
}
use ggjs.DebugInfo.Leb128.Put.{Emitted, dbuf_put_leb128-Emitted, groups}

-- The bits of a byte go above those that are there.
add_bits :
    (k acc v b : ℕ)
    → acc < 2 ^ k
    → bit_and b 0x7f ≡ v
    → v * 2 ^ k < 2 ^ 32
    → bit_or acc (u32 (bit_and b 0x7f * 2 ^ k)) ≡ acc + v * 2 ^ k
add_bits k acc v b h e small =
    let word : u32 (bit_and b 0x7f * 2 ^ k) ≡ v * 2 ^ k = rw e (omega arith) in
    ap (bit_or acc) word ∙ bit_or-below k v acc h

low_bits : (v : ℕ) → v < 128 → bit_and v 0x7f ≡ v
low_bits v h = omega (arith, bit_and-low 7 v)

marked_bits : (r : ℕ) → r < 128 → bit_and (r + 128) 0x7f ≡ r
marked_bits r h = omega (arith, bit_and-low 7 (r + 128))

no_mark : (v : ℕ) → v < 128 → (bit_and v 0x80 == 0) ≡ true
unfolding checks
no_mark v h =
    let same : bit_and v 0x80 ≡ 0 = agree_below 128 (λ x. bit_and x 0x80) (λ x. 0) v refl h in
    ap (λ x. x == 0) same

mark : (v : ℕ) → v < 128 → (bit_and (v + 128) 0x80 == 0) ≡ false
unfolding checks
mark v h =
    let same : bit_and (v + 128) 0x80 ≡ 128 =
      agree_below 128 (λ x. bit_and (x + 128) 0x80) (λ x. 128) v refl h in
    ap (λ x. x == 0) same

pow-seven : (i : ℕ) → 2 ^ (suc i * 7) ≡ 2 ^ (i * 7) * 128
pow-seven i =
    let n : ℕ = i * 7 in
    let seven : suc i * 7 ≡ suc (suc (suc (suc (suc (suc (suc n)))))) = omega arith in
    omega (
      arith,
      ap (λ e. 2 ^ e) seven,
      pow-suc 2 n,
      pow-suc 2 (suc n),
      pow-suc 2 (suc (suc n)),
      pow-suc 2 (suc (suc (suc n))),
      pow-suc 2 (suc (suc (suc (suc n)))),
      pow-suc 2 (suc (suc (suc (suc (suc n))))),
      pow-suc 2 (suc (suc (suc (suc (suc (suc n)))))),
    )

some_fuel : (fuel v : ℕ) → v < 2 ^ (suc fuel * 7) → ¬ (v < 128) → 0 < fuel
some_fuel zero v h k = absurd (k h)
some_fuel (suc fuel) v h k = omega arith

-- A digit above what is there.
room_lem : (acc r p : ℕ) → acc < p → r < 128 → acc + r * p < p * 128
room_lem acc r p h k =
    let parts : (127 - r) + 1 + r ≡ 128 = omega arith in omega (arith, ap (λ t. t * p) parts)

split_off : (v p : ℕ) → v % 128 * p + v / 128 * (p * 128) ≡ v * p
split_off v p =
    let parts : v % 128 + v / 128 * 128 ≡ v = omega arith in omega (arith, ap (λ t. t * p) parts)

-- The number and its groups, behind `i` groups that are read.
get_rounds-groups :
    (fuel i acc v : ℕ) (rest : List ℕ)
    → acc < 2 ^ (i * 7)
    → v < 2 ^ (fuel * 7)
    → v * 2 ^ (i * 7) < 2 ^ 32
    → 0 < fuel
    → get_rounds fuel i acc (groups fuel v ++ rest) ≡ some (acc + v * 2 ^ (i * 7), rest)
unfolding get_rounds groups
get_rounds-groups zero i acc v rest h k small pos = absurd (omega arith)
get_rounds-groups (suc fuel) i acc v rest h k small pos = elim (dec_lt v 128) [
  | yes lt ↦
      rw (lt→ltb v 128 lt, groups)
        (rw (no_mark v lt, get_rounds)
          (ap (λ x. some (x, rest)) (add_bits (i * 7) acc v v h (low_bits v lt) small)))
  | no ge ↦
      let r : ℕ = v % 128 in
      let q : ℕ = v / 128 in
      let p : ℕ = 2 ^ (i * 7) in
      let whole = split_off v p in
      let byte =
        add_bits (i * 7) acc r (r + 128) h (marked_bits r (omega arith)) (omega (arith, whole)) in
      let top = pow-seven i in
      let high = ap (λ t. q * t) top in
      rw (not_lt→ltb v 128 ge, groups)
        (rw (mark r (omega arith), get_rounds)
          (rw byte (
            get_rounds-groups fuel (suc i) (acc + r * p) q rest
              (omega (arith, top, room_lem acc r p h (omega arith))) (omega (arith, pow-seven fuel))
              (omega (arith, whole, high)) (some_fuel fuel v k ge)
            ∙ ap (λ x. some (x, rest)) (omega (arith, whole, high)))))
]

-- A `uint32_t` comes back from its groups, whatever bytes follow.
pub get_leb128-groups :
    (v : ℕ) (rest : List ℕ) → v < 2 ^ 32 → get_leb128 (groups 5 v ++ rest) ≡ some (v, rest)
unfolding get_leb128
get_leb128-groups v rest h =
    get_rounds-groups 5 0 0 v rest (omega arith) (omega arith) (omega arith) (omega arith)
    ∙ ap (λ x. some (x, rest)) (omega arith)

-- The signed word that `dbuf_put_sleb128` folds into an unsigned one.
abbrev pub folded : ℕ → ℕ
folded v = bit_xor (u32 (2 * v)) (minus (v / 2 ^ 31))

folded-positive : (v : ℕ) → v < 2 ^ 31 → folded v ≡ 2 * v
folded-positive v h =
    let sign : v / 2 ^ 31 ≡ 0 = omega arith in
    let word : u32 (2 * v) ≡ 2 * v = omega arith in
    ap₂ bit_xor word (ap minus sign) ∙ bit_xor-zero (2 * v)

folded-negative : (v : ℕ) → 2 ^ 31 ≤ v → v < 2 ^ 32 → folded v ≡ 2 ^ 32 - 1 - (2 * v - 2 ^ 32)
folded-negative v h k =
    let sign : v / 2 ^ 31 ≡ 1 = omega arith in
    let word : u32 (2 * v) ≡ 2 * v - 2 ^ 32 = omega arith in
    ap₂ bit_xor word (ap minus sign) ∙ bit_xor-ones 32 (2 * v - 2 ^ 32) (omega arith)

unfold_even : (w : ℕ) → w % 2 ≡ 0 → bit_xor (w / 2) (minus (bit_and w 1)) ≡ w / 2
unfold_even w h = ap (λ b. bit_xor (w / 2) (minus b)) (bit_and-low 1 w ∙ h) ∙ bit_xor-zero (w / 2)

unfold_odd :
    (w : ℕ) → w < 2 ^ 32 → w % 2 ≡ 1 → bit_xor (w / 2) (minus (bit_and w 1)) ≡ 2 ^ 32 - 1 - w / 2
unfold_odd w k h =
    ap (λ b. bit_xor (w / 2) (minus b)) (bit_and-low 1 w ∙ h)
    ∙ bit_xor-ones 32 (w / 2) (omega arith)

folded-lt : (v : ℕ) → v < 2 ^ 32 → folded v < 2 ^ 32
folded-lt v h = elim (dec_lt v (2 ^ 31)) [
  | yes k ↦ omega (arith, folded-positive v k)
  | no k ↦ omega (arith, folded-negative v (omega arith) h)
]

unfolded-folded : (v : ℕ) → v < 2 ^ 32 → bit_xor (folded v / 2) (minus (bit_and (folded v) 1)) ≡ v
unfolded-folded v h = elim (dec_lt v (2 ^ 31)) [
  | yes k ↦
      let e = folded-positive v k in unfold_even (folded v) (omega (arith, e)) ∙ omega (arith, e)
  | no k ↦
      let e = folded-negative v (omega arith) h in
      unfold_odd (folded v) (folded-lt v h) (omega (arith, e)) ∙ omega (arith, e)
]

pub get_sleb128-groups :
    (v : ℕ) (rest : List ℕ)
    → v < 2 ^ 32
    → get_sleb128 (groups 5 (folded v) ++ rest) ≡ some (v, rest)
unfolding get_sleb128
get_sleb128-groups v rest h =
    ap unfolded (get_leb128-groups (folded v) rest (folded-lt v h))
    ∙ ap (λ x. some (x, rest)) (unfolded-folded v h)

module _ {realloc : ReallocFunc} (law : IsRealloc realloc) (s : DynBuf) (v : ℕ) (valid : IsDynBuf s)
    (room : s.size + 5 < 2 ^ 64) (word : v < 2 ^ 32) where
  -- For a valid buffer that is not within five bytes of the largest `size_t`, `dbuf_put_leb128` writes
  -- bytes behind the contents and keeps the error flag, or leaves the flag set; the buffer stays
  -- valid. From these bytes, whatever follows them, `get_leb128` reads the `uint32_t` that was written.
  pub dbuf_put_leb128-get_leb128 :
      Emitted s (groups 5 v) (dbuf_put_leb128 realloc s v)
      × ((rest : List ℕ) → get_leb128 (groups 5 v ++ rest) ≡ some (v, rest))
  dbuf_put_leb128-get_leb128 =
      (dbuf_put_leb128-Emitted law s v valid room, λ rest. get_leb128-groups v rest word)

  -- For a valid buffer that is not within five bytes of the largest `size_t`, `dbuf_put_sleb128` writes
  -- bytes behind the contents and keeps the error flag, or leaves the flag set; the buffer stays
  -- valid. From these bytes, whatever follows them, `get_sleb128` reads the `int32_t` that was written.
  pub dbuf_put_sleb128-get_sleb128 :
      Emitted s (groups 5 (folded v)) (dbuf_put_sleb128 realloc s v)
      × ((rest : List ℕ) → get_sleb128 (groups 5 (folded v) ++ rest) ≡ some (v, rest))
  unfolding dbuf_put_sleb128
  dbuf_put_sleb128-get_sleb128 =
      (dbuf_put_leb128-Emitted law s (folded v) valid room, λ rest. get_sleb128-groups v rest word)
