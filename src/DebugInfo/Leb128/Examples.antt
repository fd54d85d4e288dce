-- ===== src/DebugInfo/Leb128/Examples.antt =====
-- A buffer in which one byte has room.
use ggjs.Common.{ℕ, ◌≡◌, refl, false, List, [], ◌∷◌, ◌++◌, some, arith}
use ggjs.Cutils.DynBuf.{DynBuf}
use ggjs.Cutils.DynBuf.Memory.{IsDynBuf}
use ggjs.Cutils.DynBuf.Zeroing.{zeroing, zeroing-IsRealloc}
use ggjs.DebugInfo.Leb128.{get_leb128, get_sleb128, dbuf_put_leb128, dbuf_put_sleb128, get_rounds}
use ggjs.DebugInfo.Leb128.Put.{Emitted, groups}
use ggjs.DebugInfo.Leb128.RoundTrip.{
  folded, dbuf_put_leb128-get_leb128, dbuf_put_sleb128-get_sleb128,
}

abbrev buffer : DynBuf
buffer = record { buf = 7 ∷ 0 ∷ []; size = 1; allocated_size = 2; error = false }

buffer-IsDynBuf : IsDynBuf buffer
buffer-IsDynBuf = record { held = refl; fits = omega arith; bounded = omega arith }

two_groups : get_leb128 (0xac ∷ 2 ∷ 9 ∷ []) ≡ some (300, 9 ∷ [])
unfolding get_leb128 get_rounds
two_groups = refl

-- The `int32_t` -2.
abbrev minus_two : ℕ
minus_two = 0xfffffffe

dbuf_put_leb128-get_leb128_example :
    Emitted buffer (groups 5 300) (dbuf_put_leb128 zeroing buffer 300)
    × ((rest : List ℕ) → get_leb128 (groups 5 300 ++ rest) ≡ some (300, rest))
dbuf_put_leb128-get_leb128_example =
    dbuf_put_leb128-get_leb128 zeroing-IsRealloc buffer 300 buffer-IsDynBuf (omega arith)
      (omega arith)

dbuf_put_sleb128-get_sleb128_example :
    Emitted buffer (groups 5 (folded minus_two)) (dbuf_put_sleb128 zeroing buffer minus_two)
    × ((rest : List ℕ) → get_sleb128 (groups 5 (folded minus_two) ++ rest) ≡ some (minus_two, rest))
dbuf_put_sleb128-get_sleb128_example =
    dbuf_put_sleb128-get_sleb128 zeroing-IsRealloc buffer minus_two buffer-IsDynBuf (omega arith)
      (omega arith)
