-- ===== src/DebugInfo/Pc2line/Lookup.antt =====
-- What `find_line_num` of quickjs.c finds in the table of `compute_pc2line_info`.
use ggjs.Common.{
  ℕ, zero, suc, ◌+◌, ◌^◌, ◌≤◌, ◌<◌, false, List, [], ◌∷◌, ◌++◌, length, length-append, some, ltb,
  ◌==◌, ◌&&◌, if◌then◌else◌, ◌≡◌, ◌⊎◌, inl, inr, refl, ap, ◌∙◌, arith, Bool-cases, ne→==, lt→ltb,
  not_lt→ltb, ltb→lt,
}
use ggjs.Common.Run.{ok}
use ggjs.DebugInfo.Leb128.{u32, minus}
use ggjs.DebugInfo.LineCol.{LineCol}
use ggjs.DebugInfo.LineCol.Scan.{place_of}
use ggjs.DebugInfo.Pc2line.{LineNumberSlot, sub32, int_lt, find_rounds}
use ggjs.DebugInfo.Pc2line.Table.{
  table_bytes-nil, length-entry_bytes, table_bytes-none, table_bytes-same, table_bytes-entry,
  table_bytes, entry_bytes, entry_read,
}

-- What a search for `pc` finds in the slots, from a position on: that of the last slot before the
-- first one that is behind `pc`.
unfoldable pub position_at : (buf : List ℕ) (pc : ℕ) → LineCol → List LineNumberSlot → LineCol
position_at buf pc at [] = at
position_at buf pc at (slot ∷ slots) =
    if slot.source_pos == minus 1
    then position_at buf pc at slots
    else if ltb pc slot.pc
    then at
    else position_at buf pc (place_of buf slot.source_pos) slots

-- Slots as `add_pc2line_info` makes them: the pcs, which an `int` can hold, do not go down, and the
-- positions are in the text, or -1.
unfoldable pub Ascending : (buf : List ℕ) (last_pc : ℕ) → List LineNumberSlot → Type 0
Ascending buf last_pc [] = Unit {0}
Ascending buf last_pc (slot ∷ slots) =
    (last_pc ≤ slot.pc)
    × (slot.pc < 2 ^ 31)
    × ((slot.source_pos ≡ minus 1) ⊎ (slot.source_pos ≤ length buf))
    × Ascending buf slot.pc slots

pub Ascending-mono :
    (buf : List ℕ) (p q : ℕ) (slots : List LineNumberSlot)
    → p ≤ q
    → Ascending buf q slots
    → Ascending buf p slots
unfolding Ascending
Ascending-mono buf p q [] h a = tt
Ascending-mono buf p q (slot ∷ slots) h (l, s, w, a) = (omega arith, s, w, a)

-- Nothing behind `pc` is looked at.
position_at-behind :
    (buf : List ℕ) (pc last_pc : ℕ) (at : LineCol) (slots : List LineNumberSlot)
    → pc < last_pc
    → Ascending buf last_pc slots
    → position_at buf pc at slots ≡ at
unfolding position_at Ascending
position_at-behind buf pc last_pc at [] h a = refl
position_at-behind buf pc last_pc at (slot ∷ slots) h (l, s, w, a) =
    elim (Bool-cases (slot.source_pos == minus 1)) [
      | inl e ↦ rw e (position_at-behind buf pc slot.pc at slots (omega arith) a)
      | inr e ↦ rw (e, lt→ltb pc slot.pc (omega arith)) refl
    ]

-- The number that the table's readers give: from 1.
abbrev pub shown : LineCol → LineCol
shown at = record { line_num = u32 (at.line_num + 1); col_num = u32 (at.col_num + 1) }

-- The numbers of a text of less than 2^31 bytes.
pub record IsSmall (at : LineCol) : Type 0 where
  pub line : at.line_num < 2 ^ 31
  pub col : at.col_num < 2 ^ 31

pub LineCol-path : {a b : LineCol} → a.line_num ≡ b.line_num → a.col_num ≡ b.col_num → a ≡ b
LineCol-path p q = λ i. record { line_num = p i; col_num = q i }

find_rounds-nil :
    (fuel pc_value pc : ℕ) (at : LineCol) → find_rounds fuel pc_value pc at [] ≡ ok (some at)
unfolding find_rounds
find_rounds-nil zero pc_value pc at = refl
find_rounds-nil (suc fuel) pc_value pc at = refl

-- One round of the loop on an entry.
find_rounds-entry :
    (fuel pc_value pc diff_pc diff_line diff_col : ℕ) (at : LineCol) (rest : List ℕ)
    → diff_pc < 2 ^ 32
    → diff_line < 2 ^ 32
    → diff_col < 2 ^ 32
    → length (entry_bytes diff_pc diff_line diff_col ++ rest) ≤ fuel
    → (f : ℕ) × (length rest ≤ f)
      × (find_rounds fuel pc_value pc at (entry_bytes diff_pc diff_line diff_col ++ rest) ≡ (
          if ltb pc_value (u32 (pc + diff_pc))
          then ok (some at)
          else find_rounds f pc_value
              (u32 (pc + diff_pc))
              (record {
                line_num = u32 (at.line_num + diff_line);
                col_num = u32 (at.col_num + diff_col);
              })
              rest))
unfolding find_rounds
find_rounds-entry zero pc_value pc diff_pc diff_line diff_col at rest hp hl hc h =
    let (op, tail, e, g) = entry_read diff_pc diff_line diff_col rest hp hl hc in
    absurd (grind (arith, rw e at h))
find_rounds-entry (suc fuel) pc_value pc diff_pc diff_line diff_col at rest hp hl hc h =
    let (op, tail, e, g) = entry_read diff_pc diff_line diff_col rest hp hl hc in
    (
      fuel,
      omega (
        arith,
        length-append (entry_bytes diff_pc diff_line diff_col) rest,
        length-entry_bytes diff_pc diff_line diff_col,
      ),
      rw (e, g, find_rounds) refl,
    )

module _ (buf : List ℕ) (small : (p : ℕ) → p ≤ length buf → IsSmall (place_of buf p)) (pc : ℕ) where
  pub find_rounds-table :
      (fuel last_pc : ℕ) (at : LineCol) (slots : List LineNumberSlot)
      → IsSmall at
      → last_pc < 2 ^ 31
      → Ascending buf last_pc slots
      → length (table_bytes buf last_pc at slots) ≤ fuel
      → find_rounds fuel pc last_pc (shown at) (table_bytes buf last_pc at slots)
        ≡ ok (some (shown (position_at buf pc at slots)))
  unfolding position_at Ascending
  find_rounds-table fuel last_pc at [] ha hp a h =
      rw (table_bytes-nil buf last_pc at) (find_rounds-nil fuel pc last_pc (shown at))
  find_rounds-table fuel last_pc at (slot ∷ slots) ha hp (l, s, w, a) h =
      let diff_pc = sub32 slot.pc last_pc in
      let new = place_of buf slot.source_pos in
      let diff_line = sub32 new.line_num at.line_num in
      let diff_col = sub32 new.col_num at.col_num in
      let forward : int_lt diff_pc 0 ≡ false =
        not_lt→ltb (u32 (diff_pc + 2 ^ 31)) (2 ^ 31) (omega arith) in
      let rest =
        find_rounds-table fuel last_pc at slots ha hp
          (Ascending-mono buf last_pc slot.pc slots l a) in
      elim (Bool-cases (slot.source_pos == minus 1)) [
        | inl e ↦
            let t = table_bytes-none buf last_pc at slot slots e in rw (t, e) (rest (rw t at h))
        | inr e ↦
            let inside : slot.source_pos ≤ length buf = elim w [
              | inl q ↦ absurd (ne→== slot.source_pos (minus 1) e q)
              | inr q ↦ q
            ] in
            let hn = small slot.source_pos inside in
            elim (Bool-cases (diff_line == 0 && diff_col == 0)) [
              | inl f ↦
                  let t = table_bytes-same buf last_pc at slot slots e forward f in
                  let same : new ≡ at =
                    LineCol-path (grind (arith, hn.line, ha.line))
                      (grind (arith, hn.col, ha.col)) in
                  rw (t, e)
                    (elim (Bool-cases (ltb pc slot.pc)) [
                      | inl g ↦
                          let behind =
                            position_at-behind buf pc slot.pc at slots (ltb→lt pc slot.pc g) a in
                          rw g (rest (rw t at h) ∙ ap (λ x. ok (some (shown x))) behind)
                      | inr g ↦ rw (g, same) (rest (rw t at h))
                    ])
              | inr f ↦
                  let t = table_bytes-entry buf last_pc at slot slots e forward f in
                  let (g, lg, step) =
                    find_rounds-entry fuel pc last_pc diff_pc diff_line diff_col (shown at)
                      (table_bytes buf slot.pc new slots) (omega arith) (omega arith) (omega arith)
                      (rw t at h) in
                  let to_pc : u32 (last_pc + diff_pc) ≡ slot.pc = omega arith in
                  rw (t, e, step, to_pc)
                    (elim (Bool-cases (ltb pc slot.pc)) [
                      | inl k ↦ rw k refl
                      | inr k ↦
                          let line_ok : u32 (u32 (at.line_num + 1) + diff_line)
                              ≡ u32 (new.line_num + 1) =
                            omega (arith, hn.line, ha.line) in
                          let col_ok : u32 (u32 (at.col_num + 1) + diff_col)
                              ≡ u32 (new.col_num + 1) =
                            omega (arith, hn.col, ha.col) in
                          rw (k, line_ok, col_ok) (find_rounds-table g slot.pc new slots hn s a lg)
                    ])
            ]
      ]
