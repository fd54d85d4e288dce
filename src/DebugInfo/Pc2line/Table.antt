-- ===== src/DebugInfo/Pc2line/Table.antt =====
-- The bytes of the table of `compute_pc2line_info` of quickjs.c.
use ggjs.Common.{
  length, false, ℕ, suc, ◌+◌, ◌*◌, ◌/◌, ◌%◌, ◌^◌, ◌≤◌, ◌<◌, Bool, true, List, [], ◌∷◌, ◌++◌, some,
  leb, ◌==◌, ◌&&◌, not, if◌then◌else◌, ◌≡◌, inl, inr, refl, arith, Bool-cases,
}
use mathlib.Core.List.{append_assoc}
use ggjs.DebugInfo.Leb128.{u32, minus}
use ggjs.DebugInfo.Leb128.Put.{groups}
use ggjs.DebugInfo.Leb128.RoundTrip.{folded, get_leb128-groups, get_sleb128-groups}
use ggjs.DebugInfo.LineCol.{LineCol}
use ggjs.DebugInfo.LineCol.Scan.{place_of}
use ggjs.DebugInfo.Pc2line.{
  LineNumberSlot, pc2line_base, pc2line_range, pc2line_op_first, pc2line_diff_pc_max, sub32, int_lt,
  get_op, get_entry,
}

-- The test for the short form of an entry.
abbrev pub is_short : (diff_pc diff_line : ℕ) → Bool
is_short diff_pc diff_line =
    not (int_lt diff_line pc2line_base)
    && int_lt diff_line (u32 (pc2line_base + pc2line_range))
    && leb diff_pc pc2line_diff_pc_max

abbrev pub short_op : (diff_pc diff_line : ℕ) → ℕ
short_op diff_pc diff_line =
    (sub32 diff_line pc2line_base + diff_pc * pc2line_range + pc2line_op_first) % 2 ^ 8

-- The bytes of an entry.
unfoldable pub entry_bytes : (diff_pc diff_line diff_col : ℕ) → List ℕ
entry_bytes diff_pc diff_line diff_col =
    if is_short diff_pc diff_line
    then short_op diff_pc diff_line ∷ groups 5 (folded diff_col)
    else 0 ∷ (groups 5 diff_pc ++ (groups 5 (folded diff_line) ++ groups 5 (folded diff_col)))

-- The entries for the slots, from a pc and a position on.
unfoldable pub table_bytes : (buf : List ℕ) (last_pc : ℕ) → LineCol → List LineNumberSlot → List ℕ
table_bytes buf last_pc at [] = []
table_bytes buf last_pc at (slot ∷ slots) =
    let diff_pc = sub32 slot.pc last_pc in
    let new = place_of buf slot.source_pos in
    let diff_line = sub32 new.line_num at.line_num in
    let diff_col = sub32 new.col_num at.col_num in
    if slot.source_pos == minus 1
    then table_bytes buf last_pc at slots
    else if int_lt diff_pc 0
    then table_bytes buf last_pc at slots
    else if diff_line == 0 && diff_col == 0
    then table_bytes buf last_pc at slots
    else entry_bytes diff_pc diff_line diff_col ++ table_bytes buf slot.pc new slots

pub table_bytes-nil :
    (buf : List ℕ) (last_pc : ℕ) (at : LineCol) → table_bytes buf last_pc at [] ≡ []
unfolding table_bytes
table_bytes-nil buf last_pc at = refl

-- The cases of a slot.
module _ (buf : List ℕ) (last_pc : ℕ) (at : LineCol) (slot : LineNumberSlot)
    (slots : List LineNumberSlot) where
  pub table_bytes-none :
      (slot.source_pos == minus 1) ≡ true
      → table_bytes buf last_pc at (slot ∷ slots) ≡ table_bytes buf last_pc at slots
  unfolding table_bytes
  table_bytes-none e = rw e refl

  pub table_bytes-backward :
      (slot.source_pos == minus 1) ≡ false
      → int_lt (sub32 slot.pc last_pc) 0 ≡ true
      → table_bytes buf last_pc at (slot ∷ slots) ≡ table_bytes buf last_pc at slots
  unfolding table_bytes
  table_bytes-backward e f = rw (e, f) refl

  pub table_bytes-same :
      (slot.source_pos == minus 1) ≡ false
      → int_lt (sub32 slot.pc last_pc) 0 ≡ false
      → (sub32 (place_of buf slot.source_pos).line_num at.line_num == 0
          && sub32 (place_of buf slot.source_pos).col_num at.col_num == 0)
        ≡ true
      → table_bytes buf last_pc at (slot ∷ slots) ≡ table_bytes buf last_pc at slots
  unfolding table_bytes
  table_bytes-same e f g = rw (e, f, g) refl

  pub table_bytes-entry :
      (slot.source_pos == minus 1) ≡ false
      → int_lt (sub32 slot.pc last_pc) 0 ≡ false
      → (sub32 (place_of buf slot.source_pos).line_num at.line_num == 0
          && sub32 (place_of buf slot.source_pos).col_num at.col_num == 0)
        ≡ false
      → table_bytes buf last_pc at (slot ∷ slots)
        ≡ entry_bytes
            (sub32 slot.pc last_pc)
            (sub32 (place_of buf slot.source_pos).line_num at.line_num)
            (sub32 (place_of buf slot.source_pos).col_num at.col_num)
          ++ table_bytes buf slot.pc (place_of buf slot.source_pos) slots
  unfolding table_bytes
  table_bytes-entry e f g = rw (e, f, g) refl

pub length-entry_bytes :
    (diff_pc diff_line diff_col : ℕ) → 1 ≤ length (entry_bytes diff_pc diff_line diff_col)
unfolding entry_bytes
length-entry_bytes diff_pc diff_line diff_col = elim (Bool-cases (is_short diff_pc diff_line)) [
  | inl e ↦ rw e (omega arith)
  | inr e ↦ rw e (omega arith)
]

short_values :
    (diff_pc diff_line : ℕ)
    → diff_line < 2 ^ 32
    → is_short diff_pc diff_line ≡ true
    → (u32 (diff_line + 1) < 5) × (diff_pc ≤ 50)
short_values diff_pc diff_line h e = (grind arith, grind arith)

short-parts :
    (diff_pc diff_line : ℕ)
    → diff_line < 2 ^ 32
    → u32 (diff_line + 1) < 5
    → diff_pc ≤ 50
    → (short_op diff_pc diff_line ≡ suc (u32 (diff_line + 1) + diff_pc * 5))
      × (((u32 (diff_line + 1) + diff_pc * 5) / 5 ≡ diff_pc)
          × (u32 ((u32 (diff_line + 1) + diff_pc * 5) % 5 + pc2line_base) ≡ diff_line))
short-parts diff_pc diff_line h k l = (omega arith, (omega arith, omega arith))

-- `get_entry` reads an entry back.
pub entry_read :
    (diff_pc diff_line diff_col : ℕ) (rest : List ℕ)
    → diff_pc < 2 ^ 32
    → diff_line < 2 ^ 32
    → diff_col < 2 ^ 32
    → (op : ℕ) × (tail : List ℕ) × (entry_bytes diff_pc diff_line diff_col ++ rest ≡ op ∷ tail)
      × (get_entry op tail
          ≡ some (record { diff_pc = diff_pc; diff_line = diff_line; diff_col = diff_col }, rest))
unfolding entry_bytes get_entry get_op
entry_read diff_pc diff_line diff_col rest hp hl hc =
    elim (Bool-cases (is_short diff_pc diff_line)) [
      | inl e ↦
          let (k, l) = short_values diff_pc diff_line hl e in
          let (a, (b, c)) = short-parts diff_pc diff_line hl k l in
          let o = u32 (diff_line + 1) + diff_pc * 5 in
          (
            suc o,
            groups 5 (folded diff_col) ++ rest,
            rw (e, a) refl,
            rw (get_sleb128-groups diff_col rest hc, b, c, get_entry, get_op) refl,
          )
      | inr e ↦
          let tail =
            groups 5 diff_pc
            ++ (groups 5 (folded diff_line) ++ (groups 5 (folded diff_col) ++ rest)) in
          (
            0,
            tail,
            rw
                (
                  e,
                  append_assoc (groups 5 diff_pc)
                      (groups 5 (folded diff_line) ++ groups 5 (folded diff_col)) rest,
                  append_assoc (groups 5 (folded diff_line)) (groups 5 (folded diff_col)) rest,
                )
                refl,
            rw
                (
                  get_leb128-groups diff_pc
                      (groups 5 (folded diff_line) ++ (groups 5 (folded diff_col) ++ rest)) hp,
                  get_sleb128-groups diff_line (groups 5 (folded diff_col) ++ rest) hl,
                  get_sleb128-groups diff_col rest hc,
                  get_entry,
                  get_op,
                )
                refl,
          )
    ]
