-- ===== src/DebugInfo/Pc2line/Total.antt =====
-- `find_line_num` of quickjs.c ends for every table.
use ggjs.Common.{
  ap, ℕ, zero, suc, ◌+◌, ◌≤◌, List, [], ◌∷◌, length, Option, none, some, ◌==◌, ltb, ◌≡◌, refl, inl,
  inr, arith,
}
use ggjs.Common.Run.{◌>>=◌, ok, Ends, ends, Ends-if, Ends-value}
use ggjs.DebugInfo.Leb128.{u32, minus}
use ggjs.DebugInfo.Leb128.Rest.{Left, nothing, left, Left-cases, get_leb128-Left, get_sleb128-Left}
use ggjs.DebugInfo.LineCol.{LineCol}
use ggjs.DebugInfo.Pc2line.{get_op, get_entry, find_rounds, find_position, find_line_num, returned}

get_entry-Left : (op : ℕ) (p : List ℕ) → Left (length p) (get_entry op p)
unfolding get_entry get_op
get_entry-Left zero p = elim (Left-cases (get_leb128-Left p)) [
  | inl e ↦ rw (e, get_entry, get_op) nothing
  | inr (val, q, e, l) ↦
      rw (e, get_entry, get_op)
        (elim (Left-cases (get_sleb128-Left q)) [
          | inl f ↦ rw (f, get_entry, get_op) nothing
          | inr (v, r, f, m) ↦
              rw (f, get_entry, get_op)
                (elim (Left-cases (get_sleb128-Left r)) [
                  | inl g ↦ rw (g, get_entry, get_op) nothing
                  | inr (col, t, g, n) ↦ rw (g, get_entry, get_op) (left (omega arith))
                ])
        ])
]
get_entry-Left (suc op) p = elim (Left-cases (get_sleb128-Left p)) [
  | inl g ↦ rw (g, get_entry, get_op) nothing
  | inr (col, t, g, n) ↦ rw (g, get_entry, get_op) (left n)
]

find_rounds-Ends :
    (fuel pc_value pc : ℕ) (at : LineCol) (p : List ℕ)
    → length p ≤ fuel
    → Ends (λ r. Unit {0}) (find_rounds fuel pc_value pc at p)
unfolding find_rounds
find_rounds-Ends zero pc_value pc at [] h = ends tt
find_rounds-Ends (suc fuel) pc_value pc at [] h = ends tt
find_rounds-Ends zero pc_value pc at (op ∷ p) h = absurd (omega arith)
find_rounds-Ends (suc fuel) pc_value pc at (op ∷ p) h = elim (Left-cases (get_entry-Left op p)) [
  | inl e ↦ rw (e, find_rounds) (ends tt)
  | inr (x, q, e, l) ↦
      rw (e, find_rounds)
        (Ends-if (ltb pc_value (u32 (pc + x.diff_pc))) (λ c. ends tt)
          (λ c. find_rounds-Ends fuel pc_value _ _ q (omega arith)))
]

find_position-Ends : (pc_value : ℕ) (p : List ℕ) → Ends (λ r. Unit {0}) (find_position pc_value p)
unfolding find_position
find_position-Ends pc_value p = elim (Left-cases (get_leb128-Left p)) [
  | inl e ↦ rw (e, find_position) (ends tt)
  | inr (line, q, e, l) ↦
      rw (e, find_position)
        (elim (Left-cases (get_leb128-Left q)) [
          | inl f ↦ rw (f, find_position) (ends tt)
          | inr (col, r, f, m) ↦
              rw (f, find_position)
                (Ends-if (pc_value == minus 1) (λ c. ends tt)
                  (λ c. find_rounds-Ends (length r) pc_value 0 _ r (omega arith)))
        ])
]

-- For every table, whatever its bytes, and every pc, find_line_num ends with a position.
pub find_line_num-total :
    (pc2line : Option (List ℕ)) (pc_value : ℕ)
    → (at : LineCol) × (find_line_num pc2line pc_value ≡ ok at)
unfolding find_line_num
find_line_num-total none pc_value = (returned none, refl)
find_line_num-total (some p) pc_value =
    let (r, e, u) = Ends-value (find_position-Ends pc_value p) in
    (returned r, ap (λ x. x >>= λ q. ok (returned q)) e)
