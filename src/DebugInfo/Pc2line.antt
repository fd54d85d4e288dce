-- ===== src/DebugInfo/Pc2line.antt =====
-- `add_pc2line_info`, `compute_pc2line_info` and `find_line_num` of quickjs.c: the table that gives a
-- source position for each pc. An `int` and a `uint32_t` are words of 32 bits; lines and columns are
-- taken not to overflow, as in LineCol.antt. `strip_debug` is not set.
pub mod Total
pub mod Table
pub mod Lookup
pub mod Emit
pub mod RoundTrip
pub mod Slots
mod Examples
use ggjs.Common.{
  ℕ, zero, suc, ◌+◌, ◌*◌, ◌/◌, ◌%◌, ◌^◌, Bool, List, [], ◌∷◌, ◌++◌, length, Option, none, some, ltb,
  leb, ◌==◌, ◌&&◌, not, if◌then◌else◌,
}
use ggjs.Common.Run.{Run, ok, out_of_fuel, ◌>>=◌}
use ggjs.Cutils.DynBuf.{DynBuf, ReallocFunc, Outcome, dbuf_putc}
use ggjs.DebugInfo.Leb128.{
  u32, minus, ignored, dbuf_put_leb128, dbuf_put_sleb128, get_leb128, get_sleb128,
}
use ggjs.DebugInfo.LineCol.{LineCol, GetLineColCache, get_line_col_cached}

pub record LineNumberSlot : Type 0 where
  pub pc : ℕ
  pub source_pos : ℕ

-- The fields of JSFunctionDef for the slots, which are none if there is no memory for them; their
-- count is the length.
pub record LineNumbers : Type 0 where
  pub line_number_slots : Option (List LineNumberSlot)
  pub line_number_size : ℕ
  pub line_number_last_pc : ℕ
  pub line_number_last : ℕ

pub add_slot : Option (List LineNumberSlot) → LineNumbers → (pc source_pos : ℕ) → LineNumbers
add_slot none s pc source_pos = s
add_slot (some slots) s pc source_pos =
    if ltb (length slots) s.line_number_size
      && leb s.line_number_last_pc pc
      && not (source_pos == s.line_number_last)
    then record s {
      line_number_slots = some (slots ++ record { pc = pc; source_pos = source_pos } ∷ []);
      line_number_last_pc = pc;
      line_number_last = source_pos;
    }
    else s

pub add_pc2line_info : LineNumbers → (pc source_pos : ℕ) → LineNumbers
add_pc2line_info s pc source_pos = add_slot s.line_number_slots s pc source_pos

-- PC2LINE_BASE is -1.
abbrev pub pc2line_base : ℕ
pc2line_base = minus 1

abbrev pub pc2line_range : ℕ
pc2line_range = 5

abbrev pub pc2line_op_first : ℕ
pc2line_op_first = 1

abbrev pub pc2line_diff_pc_max : ℕ
pc2line_diff_pc_max = 50

-- The difference of two words, and the order of two words as `int`.
abbrev pub sub32 : (a b : ℕ) → ℕ
sub32 a b = u32 (a + minus b)

abbrev pub int_lt : (a b : ℕ) → Bool
int_lt a b = ltb (u32 (a + 2 ^ 31)) (u32 (b + 2 ^ 31))

-- The local variables of `compute_pc2line_info` with the cache and the table.
pub record Emitting : Type 0 where
  pub cache : GetLineColCache
  pub last_pc : ℕ
  pub last_line_num : ℕ
  pub last_col_num : ℕ
  pub pc2line : Outcome

module _ (realloc : ReallocFunc) where
  -- The writes of one entry.
  pub put_entry : DynBuf → (diff_pc diff_line diff_col : ℕ) → Outcome
  put_entry s diff_pc diff_line diff_col =
      let last : DynBuf → Outcome = λ t. dbuf_put_sleb128 realloc t diff_col in
      let short =
        ignored
          (dbuf_putc realloc s
            (sub32 diff_line pc2line_base + diff_pc * pc2line_range + pc2line_op_first))
          last in
      let longer = ignored (dbuf_putc realloc s 0) λ t.
        ignored (dbuf_put_leb128 realloc t diff_pc)
          λ u. ignored (dbuf_put_sleb128 realloc u diff_line) last in
      if not (int_lt diff_line pc2line_base)
        && int_lt diff_line (u32 (pc2line_base + pc2line_range))
        && leb diff_pc pc2line_diff_pc_max
      then short
      else longer

  -- One round of the loop.
  pub emit_slot : (buf : List ℕ) → Emitting → LineNumberSlot → Emitting
  emit_slot buf s slot =
      let diff_pc = sub32 slot.pc s.last_pc in
      let c = get_line_col_cached buf s.cache slot.source_pos in
      let diff_line = sub32 c.line_num s.last_line_num in
      let diff_col = sub32 c.col_num s.last_col_num in
      if slot.source_pos == minus 1
      then s
      else if int_lt diff_pc 0
      then s
      else if diff_line == 0 && diff_col == 0
      then record s { cache = c }
      else record {
        cache = c;
        last_pc = slot.pc;
        last_line_num = c.line_num;
        last_col_num = c.col_num;
        pc2line = ignored s.pc2line λ t. put_entry t diff_pc diff_line diff_col;
      }

  pub emit_slots : (buf : List ℕ) → Emitting → List LineNumberSlot → Emitting
  emit_slots buf s [] = s
  emit_slots buf s (slot ∷ slots) = emit_slots buf (emit_slot buf s slot) slots

  -- With `s`, the buffer as js_dbuf_init leaves it, and the position of the function.
  pub compute_pc2line_info :
      (buf : List ℕ) (cache : GetLineColCache) (source_pos : ℕ)
      → List LineNumberSlot
      → DynBuf
      → Emitting
  compute_pc2line_info buf cache source_pos slots s =
      let c = get_line_col_cached buf cache source_pos in
      emit_slots buf
        (record {
          cache = c;
          last_pc = 0;
          last_line_num = c.line_num;
          last_col_num = c.col_num;
          pc2line =
              ignored (dbuf_put_leb128 realloc s c.line_num)
                λ t. dbuf_put_leb128 realloc t c.col_num;
        })
        slots

-- What an entry adds to the pc, the line and the column.
pub record Entry : Type 0 where
  pub diff_pc : ℕ
  pub diff_line : ℕ
  pub diff_col : ℕ

-- The pc and the line of an entry that begins with `op`, and the bytes behind them.
pub get_op : (op : ℕ) → List ℕ → Option (ℕ × ℕ × List ℕ)
get_op zero p = elim (get_leb128 p) [
  | none ↦ none
  | some (val, q) ↦ elim (get_sleb128 q) [ none ↦ none | some (v, r) ↦ some (val, v, r) ]
]
get_op (suc op) p = some (op / pc2line_range, u32 (op % pc2line_range + pc2line_base), p)

pub get_entry : (op : ℕ) → List ℕ → Option (Entry × List ℕ)
get_entry op p = elim (get_op op p) [
  | none ↦ none
  | some (pc, line, q) ↦ elim (get_sleb128 q) [
    | none ↦ none
    | some (col, r) ↦ some (record { diff_pc = pc; diff_line = line; diff_col = col }, r)
  ]
]

-- The loop of `find_line_num` on the bytes from `p` on, in at most so many rounds; none for a failure.
pub find_rounds : (fuel pc_value pc : ℕ) → LineCol → List ℕ → Run (Option LineCol)
find_rounds fuel pc_value pc at [] = ok (some at)
find_rounds zero pc_value pc at (op ∷ p) = out_of_fuel
find_rounds (suc fuel) pc_value pc at (op ∷ p) = elim (get_entry op p) [
  | none ↦ ok none
  | some (e, q) ↦
      let new_pc = u32 (pc + e.diff_pc) in
      let new : LineCol = record {
        line_num = u32 (at.line_num + e.diff_line);
        col_num = u32 (at.col_num + e.diff_col);
      } in
      let rest = find_rounds fuel pc_value new_pc new q in
      if ltb pc_value new_pc then ok (some at) else rest
]

-- The line and the column of the function, then the loop, unless pc_value is -1.
pub find_position : (pc_value : ℕ) → List ℕ → Run (Option LineCol)
find_position pc_value p = elim (get_leb128 p) [
  | none ↦ ok none
  | some (line, q) ↦ elim (get_leb128 q) [
    | none ↦ ok none
    | some (col, r) ↦
        let at : LineCol = record { line_num = u32 (line + 1); col_num = u32 (col + 1) } in
        let loop = find_rounds (length r) pc_value 0 at r in
        if pc_value == minus 1 then ok (some at) else loop
  ]
]

-- What is returned, with the column; zeros for a failure.
abbrev pub returned : Option LineCol → LineCol
returned none = record { line_num = 0; col_num = 0 }
returned (some at) = at

-- With the bytes of the table, or none for a function that was stripped.
pub find_line_num : Option (List ℕ) → (pc_value : ℕ) → Run LineCol
find_line_num none pc_value = ok (returned none)
find_line_num (some p) pc_value = find_position pc_value p >>= λ r. ok (returned r)
