-- ===== src/DebugInfo/Pc2line/Emit.antt =====
-- What `compute_pc2line_info` of quickjs.c writes into the buffer.
use mathlib.Core.List.{append_assoc, append-nil}
use ggjs.Common.{
  ℕ, zero, suc, ◌+◌, ◌*◌, ◌/◌, ◌^◌, ◌≤◌, ◌<◌, true, false, List, [], ◌∷◌, ◌++◌, length,
  length-append, ltb, ◌==◌, ◌&&◌, ◌≡◌, inl, inr, refl, ap, sym, ◌∙◌, arith, Bool-cases, ne→==,
  not_lt→ltb,
}
use ggjs.Cutils.DynBuf.{DynBuf, ReallocFunc, Outcome}
use ggjs.Cutils.DynBuf.Memory.{IsDynBuf, contents, IsRealloc}
use ggjs.Cutils.DynBuf.Put.{dbuf_putc-Append}
use ggjs.DebugInfo.Leb128.{u32, minus, ignored, dbuf_put_sleb128}
use ggjs.DebugInfo.Leb128.Put.{
  groups, Emitted, emitted, spoilt, putc-Emitted, dbuf_put_leb128-Emitted,
}
use ggjs.DebugInfo.Leb128.RoundTrip.{folded, dbuf_put_sleb128-get_sleb128}
use ggjs.DebugInfo.LineCol.{LineCol, get_line_col_cached}
use ggjs.DebugInfo.LineCol.Scan.{place_of}
use ggjs.DebugInfo.LineCol.Cache.{IsPlaced, get_line_col_cached-IsPlaced}
use ggjs.DebugInfo.Pc2line.{
  LineNumberSlot, Emitting, sub32, int_lt, put_entry, emit_slot, emit_slots,
}
use ggjs.DebugInfo.Pc2line.Table.{
  is_short, short_op, entry_bytes, table_bytes, table_bytes-nil, table_bytes-none, table_bytes-same,
  table_bytes-entry,
}
use ggjs.DebugInfo.Pc2line.Lookup.{Ascending, Ascending-mono}

Emitted-after :
    {s t : DynBuf} (xs : List ℕ) {ys : List ℕ} {o : Outcome}
    → t.error ≡ s.error
    → contents t ≡ contents s ++ xs
    → t.size ≡ s.size + length xs
    → Emitted t ys o
    → Emitted s (xs ++ ys) o
Emitted-after {s} xs {ys} e h k (emitted valid f g l) =
    emitted valid (f ∙ e) (g ∙ ap (λ zs. zs ++ ys) h ∙ append_assoc (contents s) xs ys)
      (omega (arith, length-append xs ys))
Emitted-after {s} xs {ys} e h k (spoilt valid f l) =
    spoilt valid f (omega (arith, length-append xs ys))

-- After an error the rest may or may not be written.
Emitted-late :
    {s t : DynBuf} (xs : List ℕ) {ys : List ℕ} {o : Outcome}
    → t.error ≡ true
    → t.size ≤ s.size + length xs
    → Emitted t ys o
    → Emitted s (xs ++ ys) o
Emitted-late {s} xs {ys} e k (emitted valid f g l) =
    spoilt valid (f ∙ e) (omega (arith, length-append xs ys))
Emitted-late {s} xs {ys} e k (spoilt valid f l) =
    spoilt valid f (omega (arith, length-append xs ys))

-- One writer after the other.
pub Emitted-append :
    {s : DynBuf} {xs ys : List ℕ} {o : Outcome} {next : DynBuf → Outcome}
    → Emitted s xs o
    → ((t : DynBuf) → IsDynBuf t → t.size ≤ s.size + length xs → Emitted t ys (next t))
    → Emitted s (xs ++ ys) (ignored o next)
Emitted-append {s} {xs} {ys} (emitted {t} valid e h k) rest =
    Emitted-after xs e h k (rest t valid (omega arith))
Emitted-append {s} {xs} {ys} (spoilt {t} valid e k) rest = Emitted-late xs e k (rest t valid k)

pub length-groups : (fuel v : ℕ) → length (groups fuel v) ≤ fuel
unfolding groups
length-groups zero v = omega arith
length-groups (suc fuel) v = elim (Bool-cases (ltb v 128)) [
  | inl e ↦ rw e (omega arith)
  | inr e ↦ rw e (omega (arith, length-groups fuel (v / 128)))
]

pub length-entry_bytes_le :
    (diff_pc diff_line diff_col : ℕ) → length (entry_bytes diff_pc diff_line diff_col) ≤ 16
unfolding entry_bytes
length-entry_bytes_le diff_pc diff_line diff_col =
    let a = length-groups 5 diff_pc in
    let b = length-groups 5 (folded diff_line) in
    let c = length-groups 5 (folded diff_col) in
    elim (Bool-cases (is_short diff_pc diff_line)) [
      | inl e ↦ rw e (omega arith)
      | inr e ↦
          rw
            (
              e,
              length-append (groups 5 diff_pc)
                  (groups 5 (folded diff_line) ++ groups 5 (folded diff_col)),
              length-append (groups 5 (folded diff_line)) (groups 5 (folded diff_col)),
            )
            (omega arith)
    ]

module _ {realloc : ReallocFunc} (law : IsRealloc realloc) where
  put_entry-Emitted :
      (s : DynBuf) (diff_pc diff_line diff_col : ℕ)
      → IsDynBuf s
      → s.size + 16 < 2 ^ 64
      → diff_line < 2 ^ 32
      → diff_col < 2 ^ 32
      → Emitted s
          (entry_bytes diff_pc diff_line diff_col)
          (put_entry realloc s diff_pc diff_line diff_col)
  unfolding put_entry entry_bytes
  put_entry-Emitted s diff_pc diff_line diff_col valid room hl hc =
      let last : (t : DynBuf)
          → IsDynBuf t
          → t.size + 5 < 2 ^ 64
          → Emitted t (groups 5 (folded diff_col)) (dbuf_put_sleb128 realloc t diff_col) =
        λ t ok h. (dbuf_put_sleb128-get_sleb128 law t diff_col ok h hc).0 in
      elim (Bool-cases (is_short diff_pc diff_line)) [
        | inl e ↦ rw e (
            putc-Emitted law (short_op diff_pc diff_line) (groups 5 (folded diff_col)) _ valid
              (dbuf_putc-Append law valid _ (omega arith)) (λ t ok h. last t ok (omega arith)))
        | inr e ↦ rw e (
            putc-Emitted law 0 _ _ valid (dbuf_putc-Append law valid 0 (omega arith)) (λ t ok h.
              Emitted-append (dbuf_put_leb128-Emitted law t diff_pc ok (omega arith)) (λ u ok' h'.
                Emitted-append
                  ((dbuf_put_sleb128-get_sleb128 law u diff_line ok'
                    (omega (arith, length-groups 5 diff_pc)) hl).0)
                  (λ v ok'' h''.
                    last v ok'' (
                      omega
                        (arith, length-groups 5 diff_pc, length-groups 5 (folded diff_line)))))))
      ]

-- The position that the loop has last written.
abbrev pub written : Emitting → LineCol
written s = record { line_num = s.last_line_num; col_num = s.last_col_num }

-- The cases of a round.
module _ (realloc : ReallocFunc) (buf : List ℕ) (st : Emitting) (slot : LineNumberSlot) where
  emit_slots-cons :
      (slots : List LineNumberSlot)
      → emit_slots realloc buf st (slot ∷ slots)
        ≡ emit_slots realloc buf (emit_slot realloc buf st slot) slots
  unfolding emit_slots
  emit_slots-cons slots = refl

  emit_slot-none : (slot.source_pos == minus 1) ≡ true → emit_slot realloc buf st slot ≡ st
  unfolding emit_slot
  emit_slot-none e = rw e refl

  module _ (new : LineCol)
      (line : (get_line_col_cached buf st.cache slot.source_pos).line_num ≡ new.line_num)
      (col : (get_line_col_cached buf st.cache slot.source_pos).col_num ≡ new.col_num)
      (some_pos : (slot.source_pos == minus 1) ≡ false)
      (forward : int_lt (sub32 slot.pc st.last_pc) 0 ≡ false) where
    emit_slot-same :
        (sub32 new.line_num st.last_line_num == 0 && sub32 new.col_num st.last_col_num == 0) ≡ true
        → emit_slot realloc buf st slot
          ≡ record st { cache = get_line_col_cached buf st.cache slot.source_pos }
    unfolding emit_slot
    emit_slot-same g = rw (some_pos, forward, line, col, g) refl

    emit_slot-entry :
        (sub32 new.line_num st.last_line_num == 0 && sub32 new.col_num st.last_col_num == 0) ≡ false
        → emit_slot realloc buf st slot ≡ record {
          cache = get_line_col_cached buf st.cache slot.source_pos;
          last_pc = slot.pc;
          last_line_num = new.line_num;
          last_col_num = new.col_num;
          pc2line = ignored st.pc2line λ t.
              put_entry realloc t
                (sub32 slot.pc st.last_pc)
                (sub32 new.line_num st.last_line_num)
                (sub32 new.col_num st.last_col_num);
        }
    unfolding emit_slot
    emit_slot-entry g = rw (some_pos, forward, line, col, g) refl

module _ {realloc : ReallocFunc} (law : IsRealloc realloc) (buf : List ℕ) where
  pub emit_slots-Emitted :
      (s : DynBuf) (xs : List ℕ) (st : Emitting) (slots : List LineNumberSlot)
      → Emitted s xs st.pc2line
      → IsPlaced buf st.cache
      → st.last_pc < 2 ^ 31
      → Ascending buf st.last_pc slots
      → s.size + length xs + 16 * length slots < 2 ^ 64
      → Emitted s
          (xs ++ table_bytes buf st.last_pc (written st) slots)
          (emit_slots realloc buf st slots).pc2line
  unfolding emit_slots Ascending
  emit_slots-Emitted s xs st [] e pl hp a room =
      rw (table_bytes-nil buf st.last_pc (written st), append-nil xs) e
  emit_slots-Emitted s xs st (slot ∷ slots) e pl hp (l, small, w, a) room =
      let diff_pc = sub32 slot.pc st.last_pc in
      let new = place_of buf slot.source_pos in
      let forward : int_lt diff_pc 0 ≡ false =
        not_lt→ltb (u32 (diff_pc + 2 ^ 31)) (2 ^ 31) (omega arith) in
      let a' = Ascending-mono buf st.last_pc slot.pc slots l a in
      elim (Bool-cases (slot.source_pos == minus 1)) [
        | inl f ↦
            rw
              (
                table_bytes-none buf st.last_pc (written st) slot slots f,
                emit_slots-cons realloc buf st slot slots,
                emit_slot-none realloc buf st slot f,
              )
              (emit_slots-Emitted s xs st slots e pl hp a' (omega arith))
        | inr f ↦
            let inside : slot.source_pos ≤ length buf = elim w [
              | inl q ↦ absurd (ne→== slot.source_pos (minus 1) f q)
              | inr q ↦ q
            ] in
            let c = get_line_col_cached buf st.cache slot.source_pos in
            let (at_ptr, pc') =
              get_line_col_cached-IsPlaced buf st.cache slot.source_pos pl inside in
            let line : c.line_num ≡ new.line_num = rw at_ptr at pc'.line in
            let col : c.col_num ≡ new.col_num = rw at_ptr at pc'.col in
            elim (Bool-cases (
              sub32 new.line_num st.last_line_num == 0 && sub32 new.col_num st.last_col_num == 0)) [
                | inl g ↦
                    rw
                      (
                        table_bytes-same buf st.last_pc (written st) slot slots f forward g,
                        emit_slots-cons realloc buf st slot slots,
                        emit_slot-same realloc buf st slot new line col f forward g,
                      )
                      (emit_slots-Emitted s xs (record st { cache = c }) slots e pc' hp a'
                        (omega arith))
                | inr g ↦
                    let next = emit_slot-entry realloc buf st slot new line col f forward g in
                    let bytes =
                      entry_bytes diff_pc (sub32 new.line_num st.last_line_num)
                        (sub32 new.col_num st.last_col_num) in
                    rw
                      (
                        table_bytes-entry buf st.last_pc (written st) slot slots f forward g,
                        emit_slots-cons realloc buf st slot slots,
                        next,
                        sym (append_assoc xs bytes (table_bytes buf slot.pc new slots)),
                      )
                      (emit_slots-Emitted s (xs ++ bytes) _ slots
                        (Emitted-append e (λ t ok h.
                          put_entry-Emitted law t diff_pc _ _ ok (omega arith) (omega arith)
                            (omega arith)))
                        pc' small a
                        (omega (
                          arith,
                          length-append xs bytes,
                          length-entry_bytes_le diff_pc (sub32 new.line_num st.last_line_num)
                              (sub32 new.col_num st.last_col_num),
                        )))
              ]
      ]
