-- ===== src/DebugInfo/Pc2line/RoundTrip.antt =====
-- `find_line_num` of quickjs.c finds in the table of `compute_pc2line_info` what the slots say.
use mathlib.Core.Path.{subst}
use mathlib.Core.List.{append_assoc}
use ggjs.Common.{
  ℕ, ◌+◌, ◌*◌, ◌^◌, ◌≤◌, ◌<◌, false, List, ◌++◌, length, length-append, some, ◌==◌, ◌≡◌, refl,
  arith,
}
use ggjs.Common.Run.{ok}
use ggjs.Cutils.DynBuf.{DynBuf, ReallocFunc}
use ggjs.Cutils.DynBuf.Memory.{IsDynBuf, IsRealloc}
use ggjs.DebugInfo.Leb128.{minus, ignored, dbuf_put_leb128}
use ggjs.DebugInfo.Leb128.Put.{groups, Emitted, dbuf_put_leb128-Emitted}
use ggjs.DebugInfo.Leb128.RoundTrip.{get_leb128-groups}
use ggjs.DebugInfo.LineCol.{LineCol, GetLineColCache, get_line_col_cached}
use ggjs.DebugInfo.LineCol.Scan.{place_of}
use ggjs.DebugInfo.LineCol.Bound.{place_of-le}
use ggjs.DebugInfo.LineCol.Cache.{IsPlaced, get_line_col_cached-IsPlaced}
use ggjs.DebugInfo.Pc2line.{
  LineNumberSlot, compute_pc2line_info, find_position, find_line_num, Emitting,
}
use ggjs.DebugInfo.Pc2line.Table.{table_bytes}
use ggjs.DebugInfo.Pc2line.Lookup.{
  Ascending, position_at, shown, IsSmall, find_rounds-table, LineCol-path,
}
use ggjs.DebugInfo.Pc2line.Emit.{Emitted-append, length-groups, emit_slots-Emitted, written}

-- The bytes of the whole table.
unfoldable pub pc2line_bytes : (buf : List ℕ) (source_pos : ℕ) → List LineNumberSlot → List ℕ
pc2line_bytes buf source_pos slots =
    let at = place_of buf source_pos in
    groups 5 at.line_num ++ (groups 5 at.col_num ++ table_bytes buf 0 at slots)

place_of-IsSmall : (buf : List ℕ) → length buf < 2 ^ 31 → (p : ℕ) → IsSmall (place_of buf p)
place_of-IsSmall buf h p = record {
  line = omega (arith, (place_of-le buf p).0);
  col = omega (arith, (place_of-le buf p).1);
}

module _ (buf : List ℕ) (text : length buf < 2 ^ 31) (source_pos : ℕ) (slots : List LineNumberSlot)
    (ascending : Ascending buf 0 slots) where
  find_line_num-bytes :
      (pc : ℕ)
      → pc < minus 1
      → find_line_num (some (pc2line_bytes buf source_pos slots)) pc
        ≡ ok (shown (position_at buf pc (place_of buf source_pos) slots))
  unfolding find_line_num find_position pc2line_bytes
  find_line_num-bytes pc h =
      let at = place_of buf source_pos in
      let rest = table_bytes buf 0 at slots in
      let at_small = place_of-IsSmall buf text source_pos in
      let loop =
        find_rounds-table buf (λ p q. place_of-IsSmall buf text p) pc (length rest) 0 at slots
          at_small (omega arith) ascending (omega arith) in
      let other : (pc == minus 1) ≡ false = ground arith in
      rw
        (
          get_leb128-groups at.line_num (groups 5 at.col_num ++ rest)
              (omega (arith, at_small.line)),
          get_leb128-groups at.col_num rest (omega (arith, at_small.col)),
          find_line_num,
          find_position,
          other,
          loop,
        )
        refl

  find_line_num-function :
      find_line_num (some (pc2line_bytes buf source_pos slots)) (minus 1)
      ≡ ok (shown (place_of buf source_pos))
  unfolding find_line_num find_position pc2line_bytes
  find_line_num-function =
      let at = place_of buf source_pos in
      let rest = table_bytes buf 0 at slots in
      let at_small = place_of-IsSmall buf text source_pos in
      rw
        (
          get_leb128-groups at.line_num (groups 5 at.col_num ++ rest)
              (omega (arith, at_small.line)),
          get_leb128-groups at.col_num rest (omega (arith, at_small.col)),
          find_line_num,
          find_position,
        )
        refl

module _ {realloc : ReallocFunc} (law : IsRealloc realloc) (buf : List ℕ)
    (text : length buf < 2 ^ 31) (cache : GetLineColCache) (placed : IsPlaced buf cache)
    (source_pos : ℕ) (inside : source_pos ≤ length buf) (slots : List LineNumberSlot)
    (ascending : Ascending buf 0 slots) (s : DynBuf) (valid : IsDynBuf s)
    (room : s.size + 10 + 16 * length slots < 2 ^ 64) where
  compute_pc2line_info-Emitted :
      Emitted s
        (pc2line_bytes buf source_pos slots)
        (compute_pc2line_info realloc buf cache source_pos slots s).pc2line
  unfolding compute_pc2line_info pc2line_bytes
  compute_pc2line_info-Emitted =
      let at = place_of buf source_pos in
      let c = get_line_col_cached buf cache source_pos in
      let (at_ptr, placed') = get_line_col_cached-IsPlaced buf cache source_pos placed inside in
      let line : c.line_num ≡ at.line_num = rw at_ptr at placed'.line in
      let col : c.col_num ≡ at.col_num = rw at_ptr at placed'.col in
      let at_c : LineCol = record { line_num = c.line_num; col_num = c.col_num } in
      let same : at_c ≡ at = LineCol-path line col in
      let a = length-groups 5 c.line_num in
      let b = length-groups 5 c.col_num in
      let start : Emitting = record {
        cache = c;
        last_pc = 0;
        last_line_num = c.line_num;
        last_col_num = c.col_num;
        pc2line =
            ignored (dbuf_put_leb128 realloc s c.line_num) λ t. dbuf_put_leb128 realloc t c.col_num;
      } in
      let all =
        emit_slots-Emitted law buf s (groups 5 c.line_num ++ groups 5 c.col_num) start slots
          (Emitted-append (dbuf_put_leb128-Emitted law s c.line_num valid (omega arith))
            (λ t ok h. dbuf_put_leb128-Emitted law t c.col_num ok (omega arith)))
          placed' (omega arith) ascending
          (omega (arith, length-append (groups 5 c.line_num) (groups 5 c.col_num))) in
      let parts =
        append_assoc (groups 5 c.line_num) (groups 5 c.col_num)
          (table_bytes buf 0 (written start) slots) in
      subst
        (λ (p : LineCol).
          Emitted s (groups 5 p.line_num ++ (groups 5 p.col_num ++ table_bytes buf 0 p slots))
            (compute_pc2line_info realloc buf cache source_pos slots s).pc2line)
        same (rw parts at all)

  -- For a text of less than 2^31 bytes, a cache that holds a place of the text, and slots with pcs that
  -- are `int`s in ascending order and positions in the text or -1: compute_pc2line_info writes bytes
  -- behind the contents of a valid buffer with room for them, or leaves the error flag set. In these
  -- bytes find_line_num finds, for any pc but -1, the line and the column, from 1, of the last slot
  -- with a position before the first one that is behind the pc, or of the function if there is none;
  -- and for -1 those of the function.
  pub compute_pc2line_info-find_line_num :
      Emitted s
        (pc2line_bytes buf source_pos slots)
        (compute_pc2line_info realloc buf cache source_pos slots s).pc2line
      × ((pc : ℕ)
          → pc < minus 1
          → find_line_num (some (pc2line_bytes buf source_pos slots)) pc
            ≡ ok (shown (position_at buf pc (place_of buf source_pos) slots)))
      × (find_line_num (some (pc2line_bytes buf source_pos slots)) (minus 1)
          ≡ ok (shown (place_of buf source_pos)))
  compute_pc2line_info-find_line_num = (
    compute_pc2line_info-Emitted,
    find_line_num-bytes buf text source_pos slots ascending,
    find_line_num-function buf text source_pos slots ascending,
  )
