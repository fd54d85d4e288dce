-- ===== src/DebugInfo/Pc2line/Slots.antt =====
-- The slots that `add_pc2line_info` of quickjs.c collects.
use ggjs.Common.{
  ℕ, ◌^◌, ◌≤◌, ◌<◌, List, [], ◌∷◌, ◌++◌, length, length-append, Option, none, some, ltb, leb, ◌==◌,
  ◌&&◌, not, ◌≡◌, ◌⊎◌, inl, inr, arith, Bool-cases,
}
use ggjs.DebugInfo.Leb128.{minus}
use ggjs.DebugInfo.Pc2line.{LineNumberSlot, LineNumbers, add_slot, add_pc2line_info}
use ggjs.DebugInfo.Pc2line.Lookup.{Ascending}

unfoldable pub Upto : (last_pc : ℕ) → List LineNumberSlot → Type 0
Upto last_pc [] = Unit {0}
Upto last_pc (slot ∷ slots) = (slot.pc ≤ last_pc) × Upto last_pc slots

-- If there are slots, they are in the room that there is for them, and their pcs go up to the last.
pub record IsFilled (buf : List ℕ) (s : LineNumbers) (slots : List LineNumberSlot) : Type 0 where
  pub room : length slots ≤ s.line_number_size
  pub ascending : Ascending buf 0 slots
  pub upto : Upto s.line_number_last_pc slots

unfoldable pub AreFilled : (buf : List ℕ) → LineNumbers → Option (List LineNumberSlot) → Type 0
AreFilled buf s none = Unit {0}
AreFilled buf s (some slots) = IsFilled buf s slots

Upto-snoc :
    (last_pc : ℕ) (slot : LineNumberSlot) (slots : List LineNumberSlot)
    → last_pc ≤ slot.pc
    → Upto last_pc slots
    → Upto slot.pc (slots ++ slot ∷ [])
unfolding Upto
Upto-snoc last_pc slot [] h u = (omega arith, tt)
Upto-snoc last_pc slot (x ∷ slots) h (l, u) = (omega arith, Upto-snoc last_pc slot slots h u)

Ascending-snoc :
    (buf : List ℕ) (from last_pc : ℕ) (slot : LineNumberSlot) (slots : List LineNumberSlot)
    → Ascending buf from slots
    → Upto last_pc slots
    → from ≤ slot.pc
    → last_pc ≤ slot.pc
    → slot.pc < 2 ^ 31
    → (slot.source_pos ≡ minus 1) ⊎ (slot.source_pos ≤ length buf)
    → Ascending buf from (slots ++ slot ∷ [])
unfolding Ascending Upto
Ascending-snoc buf from last_pc slot [] a u f l h w = (f, h, w, tt)
Ascending-snoc buf from last_pc slot (x ∷ slots) (b, c, d, a) (k, u) f l h w =
    (b, c, d, Ascending-snoc buf x.pc last_pc slot slots a u (omega arith) l h w)

module _ (buf : List ℕ) (s : LineNumbers) (pc source_pos : ℕ) (small : pc < 2 ^ 31)
    (inside : (source_pos ≡ minus 1) ⊎ (source_pos ≤ length buf)) where
  add_slot-AreFilled :
      (slots : Option (List LineNumberSlot))
      → AreFilled buf s slots
      → AreFilled buf s s.line_number_slots
      → AreFilled buf
          (add_slot slots s pc source_pos)
          (add_slot slots s pc source_pos).line_number_slots
  unfolding add_slot AreFilled
  add_slot-AreFilled none a same = same
  add_slot-AreFilled (some slots) a same =
      elim (Bool-cases (
        ltb (length slots) s.line_number_size
        && leb s.line_number_last_pc pc
        && not (source_pos == s.line_number_last))) [
          | inl t ↦
              let slot : LineNumberSlot = record { pc = pc; source_pos = source_pos } in
              let up : s.line_number_last_pc ≤ pc = grind arith in
              let fits : length slots < s.line_number_size = grind arith in
              rw t (record {
                room = omega (arith, length-append slots (slot ∷ []));
                ascending =
                    Ascending-snoc buf 0 s.line_number_last_pc slot slots a.ascending a.upto
                      (omega arith) up small inside;
                upto = Upto-snoc s.line_number_last_pc slot slots up a.upto;
              })
          | inr t ↦ rw t same
        ]

  -- If the slots are in the room that there is for them, with ascending pcs up to the last one, then
  -- so they are after add_pc2line_info with a pc that is an `int` and a position in the text or -1.
  pub add_pc2line_info-AreFilled :
      AreFilled buf s s.line_number_slots
      → AreFilled buf
          (add_pc2line_info s pc source_pos)
          (add_pc2line_info s pc source_pos).line_number_slots
  unfolding add_pc2line_info
  add_pc2line_info-AreFilled a = add_slot-AreFilled s.line_number_slots a a
