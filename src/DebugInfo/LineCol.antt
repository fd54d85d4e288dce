-- ===== src/DebugInfo/LineCol.antt =====
-- `get_line_col` and `get_line_col_cached` of quickjs.c. The source text is the list of its bytes, a
-- pointer the distance from `buf_start`, and an `int` of lines or columns does not overflow.
pub mod Scan
pub mod Cache
pub mod Bound
mod Examples
use ggjs.Common.{
  ℕ, zero, suc, ◌+◌, ◌-◌, Bool, List, [], ◌∷◌, get_or, take, drop, ltb, leb, ◌==◌, ◌||◌,
  if◌then◌else◌,
}

-- A line and a column from 0.
pub record LineCol : Type 0 where
  pub line_num : ℕ
  pub col_num : ℕ

abbrev pub newline : ℕ
newline = 10

-- A byte that starts a character.
abbrev pub starts : ℕ → Bool
starts c = ltb c 0x80 || leb 0xc0 c

-- One round of `get_line_col`.
pub advance : LineCol → ℕ → LineCol
advance at c =
    if c == newline
    then record { line_num = suc at.line_num; col_num = 0 }
    else if starts c
    then record at { col_num = suc at.col_num }
    else at

pub scan : LineCol → List ℕ → LineCol
scan at [] = at
scan at (c ∷ buf) = scan (advance at c) buf

pub get_line_col : List ℕ → LineCol
get_line_col buf = scan (record { line_num = 0; col_num = 0 }) buf

-- Without `buf_start`, which is fixed.
pub record GetLineColCache : Type 0 where
  pub ptr : ℕ
  pub line_num : ℕ
  pub col_num : ℕ

-- The loop that goes back from `p` to the line's start.
pub column_before : (buf : List ℕ) (p : ℕ) → ℕ
column_before buf zero = 0
column_before buf (suc p) =
    let c = get_or buf p 0 in
    let rest = column_before buf p in
    if c == newline then 0 else if starts c then suc rest else rest

-- The cache that is left; its line and its column are what is returned.
pub get_line_col_cached : (buf : List ℕ) → GetLineColCache → (ptr : ℕ) → GetLineColCache
get_line_col_cached buf s ptr =
    if leb s.ptr ptr
    then (let d = get_line_col (take (ptr - s.ptr) (drop s.ptr buf)) in
        if d.line_num == 0
        then record { ptr = ptr; line_num = s.line_num; col_num = s.col_num + d.col_num }
        else record { ptr = ptr; line_num = s.line_num + d.line_num; col_num = d.col_num })
    else (let d = get_line_col (take (s.ptr - ptr) (drop ptr buf)) in
        if d.line_num == 0
        then record { ptr = ptr; line_num = s.line_num; col_num = s.col_num - d.col_num }
        else record {
          ptr = ptr;
          line_num = s.line_num - d.line_num;
          col_num = column_before buf ptr;
        })
