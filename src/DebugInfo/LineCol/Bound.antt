-- ===== src/DebugInfo/LineCol/Bound.antt =====
-- A text has no more lines, and no more columns in a line, than bytes.
use ggjs.Common.{
  ℕ, suc, ◌+◌, ◌≤◌, List, [], ◌∷◌, length, take, length-take, Bool-cases, inl, inr, ◌==◌, arith,
}
use ggjs.DebugInfo.LineCol.{LineCol, newline, starts, advance, scan, get_line_col}
use ggjs.DebugInfo.LineCol.Scan.{place_of}

advance-le :
    (at : LineCol) (c : ℕ)
    → ((advance at c).line_num ≤ suc at.line_num) × ((advance at c).col_num ≤ suc at.col_num)
unfolding advance
advance-le at c = elim (Bool-cases (c == newline)) [
  | inl e ↦ rw e (omega arith, omega arith)
  | inr e ↦ elim (Bool-cases (starts c)) [
    | inl f ↦ rw (e, f) (omega arith, omega arith)
    | inr f ↦ rw (e, f) (omega arith, omega arith)
  ]
]

scan-le :
    (at : LineCol) (buf : List ℕ)
    → ((scan at buf).line_num ≤ at.line_num + length buf)
      × ((scan at buf).col_num ≤ at.col_num + length buf)
unfolding scan
scan-le at [] = (omega arith, omega arith)
scan-le at (c ∷ buf) =
    let (l, k) = scan-le (advance at c) buf in
    let (m, n) = advance-le at c in (omega arith, omega arith)

pub place_of-le :
    (buf : List ℕ) (p : ℕ)
    → ((place_of buf p).line_num ≤ length buf) × ((place_of buf p).col_num ≤ length buf)
unfolding place_of get_line_col
place_of-le buf p =
    let (l, k) = scan-le (record { line_num = 0; col_num = 0 }) (take p buf) in
    (omega (arith, length-take p buf), omega (arith, length-take p buf))
