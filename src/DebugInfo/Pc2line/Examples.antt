-- ===== src/DebugInfo/Pc2line/Examples.antt =====
-- The table of a function with three slots.
use ggjs.Common.{ℕ, ◌≡◌, ◌<◌, refl, List, [], ◌∷◌, some, inr, arith, false}
use ggjs.Common.Run.{ok}
use ggjs.Cutils.DynBuf.{DynBuf}
use ggjs.Cutils.DynBuf.Memory.{IsDynBuf}
use ggjs.Cutils.DynBuf.Zeroing.{zeroing, zeroing-IsRealloc}
use ggjs.DebugInfo.Leb128.{minus}
use ggjs.DebugInfo.Leb128.Put.{Emitted}
use ggjs.DebugInfo.LineCol.{LineCol, GetLineColCache}
use ggjs.DebugInfo.LineCol.Scan.{place_of}
use ggjs.DebugInfo.LineCol.Cache.{IsPlaced-start}
use ggjs.DebugInfo.Pc2line.{
  LineNumberSlot, LineNumbers, add_pc2line_info, compute_pc2line_info, find_line_num,
}
use ggjs.DebugInfo.Pc2line.Lookup.{Ascending, position_at, shown}
use ggjs.DebugInfo.Pc2line.RoundTrip.{pc2line_bytes, compute_pc2line_info-find_line_num}
use ggjs.DebugInfo.Pc2line.Slots.{IsFilled, AreFilled, Upto, add_pc2line_info-AreFilled}
use ggjs.DebugInfo.Pc2line.Total.{find_line_num-total}

abbrev text : List ℕ
text = 97 ∷ 98 ∷ 10 ∷ 99 ∷ 100 ∷ 10 ∷ 101 ∷ []

abbrev start : GetLineColCache
start = record { ptr = 0; line_num = 0; col_num = 0 }

abbrev slots : List LineNumberSlot
slots =
    record { pc = 0; source_pos = 1 }
    ∷ record { pc = 4; source_pos = 4 }
    ∷ record { pc = 90; source_pos = 6 }
    ∷ []

slots-Ascending : Ascending text 0 slots
unfolding Ascending
slots-Ascending = (
  omega arith,
  omega arith,
  inr (omega arith),
  (omega arith, omega arith, inr (omega arith), (omega arith, omega arith, inr (omega arith), tt)),
)

abbrev empty : DynBuf
empty = record { buf = []; size = 0; allocated_size = 0; error = false }

empty-IsDynBuf : IsDynBuf empty
empty-IsDynBuf = record { held = refl; fits = omega arith; bounded = omega arith }

compute_pc2line_info-find_line_num_example :
    Emitted empty
      (pc2line_bytes text 0 slots)
      (compute_pc2line_info zeroing text start 0 slots empty).pc2line
    × ((pc : ℕ)
        → pc < minus 1
        → find_line_num (some (pc2line_bytes text 0 slots)) pc
          ≡ ok (shown (position_at text pc (place_of text 0) slots)))
    × (find_line_num (some (pc2line_bytes text 0 slots)) (minus 1) ≡ ok (shown (place_of text 0)))
compute_pc2line_info-find_line_num_example =
    compute_pc2line_info-find_line_num zeroing-IsRealloc text (omega arith) start
      (IsPlaced-start text) 0 (omega arith) slots slots-Ascending empty empty-IsDynBuf (omega arith)

abbrev room_for_four : LineNumbers
room_for_four = record {
  line_number_slots = some slots;
  line_number_size = 4;
  line_number_last_pc = 90;
  line_number_last = 6;
}

slots-IsFilled : IsFilled text room_for_four slots
unfolding Upto
slots-IsFilled = record {
  room = omega arith;
  ascending = slots-Ascending;
  upto = (omega arith, (omega arith, (omega arith, tt)));
}

room_for_four-AreFilled : AreFilled text room_for_four (some slots)
unfolding AreFilled
room_for_four-AreFilled = slots-IsFilled

add_pc2line_info-AreFilled_example :
    AreFilled text
      (add_pc2line_info room_for_four 95 3)
      (add_pc2line_info room_for_four 95 3).line_number_slots
add_pc2line_info-AreFilled_example =
    add_pc2line_info-AreFilled text room_for_four 95 3 (omega arith) (inr (omega arith))
      room_for_four-AreFilled

-- A table that ends in the middle of a number.
find_line_num-total_example :
    (at : LineCol) × (find_line_num (some (3 ∷ 2 ∷ 0 ∷ 0x80 ∷ [])) 7 ≡ ok at)
find_line_num-total_example = find_line_num-total (some (3 ∷ 2 ∷ 0 ∷ 0x80 ∷ [])) 7
