-- ===== src/DebugInfo/Leb128.antt =====
-- `dbuf_put_leb128`, `dbuf_put_sleb128`, `get_leb128` and `get_sleb128` of quickjs.c. A number is the
-- word of 32 bits that stands for it; the reader leaves the bytes behind the number, or none for -1.
pub mod Put
pub mod RoundTrip
pub mod Rest
mod Examples
use ggjs.Common.{
  ℕ, zero, suc, ◌+◌, ◌-◌, ◌*◌, ◌/◌, ◌%◌, ◌^◌, List, [], ◌∷◌, Option, none, some, ◌==◌,
  if◌then◌else◌, bit_and, bit_or, bit_xor,
}
use ggjs.Cutils.DynBuf.{DynBuf, ReallocFunc, Outcome, done, failed, fault, dbuf_putc}

-- A `uint32_t`.
abbrev pub u32 : ℕ → ℕ
u32 n = n % 2 ^ 32

-- A call whose return value is not looked at.
abbrev pub ignored : Outcome → (DynBuf → Outcome) → Outcome
ignored (done t) next = next t
ignored (failed t) next = next t
ignored fault next = fault

-- -(v >> 31) and -(v & 1) of a `uint32_t`.
abbrev pub minus : ℕ → ℕ
minus v = u32 (2 ^ 32 - v)

module _ (realloc : ReallocFunc) where
  -- The rounds of the loop, at most so many.
  pub put_rounds : (fuel : ℕ) → DynBuf → ℕ → Outcome
  put_rounds zero s v = done s
  put_rounds (suc fuel) s v =
      let a = bit_and v 0x7f in
      let more = ignored (dbuf_putc realloc s (bit_or a 0x80)) λ t. put_rounds fuel t (v / 2 ^ 7) in
      let last = ignored (dbuf_putc realloc s a) λ t. done t in
      if v / 2 ^ 7 == 0 then last else more

  -- A `uint32_t` takes five rounds at most.
  pub dbuf_put_leb128 : DynBuf → ℕ → Outcome
  dbuf_put_leb128 s v = put_rounds 5 s v

  pub dbuf_put_sleb128 : DynBuf → ℕ → Outcome
  dbuf_put_sleb128 s v = dbuf_put_leb128 s (bit_xor (u32 (2 * v)) (minus (v / 2 ^ 31)))

-- The rounds from `i` on, at most so many.
pub get_rounds : (fuel i v : ℕ) → List ℕ → Option (ℕ × List ℕ)
get_rounds zero i v p = none
get_rounds (suc fuel) i v [] = none
get_rounds (suc fuel) i v (a ∷ p) =
    let with_bits = bit_or v (u32 (bit_and a 0x7f * 2 ^ (i * 7))) in
    let more = get_rounds fuel (suc i) with_bits p in
    if bit_and a 0x80 == 0 then some (with_bits, p) else more

pub get_leb128 : List ℕ → Option (ℕ × List ℕ)
get_leb128 p = get_rounds 5 0 0 p

abbrev pub unfolded : Option (ℕ × List ℕ) → Option (ℕ × List ℕ)
unfolded none = none
unfolded (some (v, p)) = some (bit_xor (v / 2) (minus (bit_and v 1)), p)

pub get_sleb128 : List ℕ → Option (ℕ × List ℕ)
get_sleb128 p = unfolded (get_leb128 p)
