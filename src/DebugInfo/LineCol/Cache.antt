-- ===== src/DebugInfo/LineCol/Cache.antt =====
-- The cached place is the place that a scan from the start gives.
use native.Mathlib.Decide.{dec_le}
use ggjs.Common.{
  ℕ, zero, suc, ◌+◌, ◌-◌, ◌≤◌, ◌<◌, ◌≡◌, refl, ap, sym, ◌∙◌, true, false, List, length, take, drop,
  leb, ◌==◌, arith, Bool-cases, inl, inr,
}
use ggjs.DebugInfo.LineCol.{scan, LineCol, GetLineColCache, get_line_col, get_line_col_cached}
use ggjs.DebugInfo.LineCol.Scan.{way, place_of, moved, place_of-moved, column_before-place_of}

-- The cache holds the place of its pointer, which is in the text.
pub record IsPlaced (buf : List ℕ) (s : GetLineColCache) : Type 0 where
  pub within : s.ptr ≤ length buf
  pub line : s.line_num ≡ (place_of buf s.ptr).line_num
  pub col : s.col_num ≡ (place_of buf s.ptr).col_num

down :
    (at : LineCol) (l c : ℕ)
    → (l == 0) ≡ false
    → ((way at l c).line_num ≡ at.line_num + l) × ((way at l c).col_num ≡ c)
down at zero c e = absurd (cc)
down at (suc l) c e = (refl, refl)

-- The numbers after a way, line and column.
moved_same :
    (at d : LineCol)
    → (d.line_num == 0) ≡ true
    → ((moved at d).line_num ≡ at.line_num) × ((moved at d).col_num ≡ at.col_num + d.col_num)
moved_same at d e =
    let none : d.line_num ≡ 0 = ground arith in
    (ap (λ l. (way at l d.col_num).line_num) none, ap (λ l. (way at l d.col_num).col_num) none)

moved_down :
    (at d : LineCol)
    → (d.line_num == 0) ≡ false
    → ((moved at d).line_num ≡ at.line_num + d.line_num) × ((moved at d).col_num ≡ d.col_num)
moved_down at d e = down at d.line_num d.col_num e

module _ (buf : List ℕ) (s : GetLineColCache) (ptr : ℕ) (placed : IsPlaced buf s)
    (h : ptr ≤ length buf) where
  forward : s.ptr ≤ ptr → IsPlaced buf (get_line_col_cached buf s ptr)
  unfolding get_line_col_cached
  forward k =
      let d = get_line_col (take (ptr - s.ptr) (drop s.ptr buf)) in
      let at = place_of buf s.ptr in
      let way = place_of-moved buf s.ptr ptr k in
      let ahead : leb s.ptr ptr ≡ true = ground arith in
      elim (Bool-cases (d.line_num == 0)) [
        | inl e ↦
            let parts = moved_same at d e in
            rw (ahead, e)
              (record {
                within = h;
                line = placed.line ∙ sym parts.0 ∙ sym (ap (λ p. p.line_num) way);
                col =
                    ap (λ n. n + d.col_num) placed.col
                    ∙ sym parts.1
                    ∙ sym (ap (λ p. p.col_num) way);
              })
        | inr e ↦
            let parts = moved_down at d e in
            rw (ahead, e)
              (record {
                within = h;
                line =
                    ap (λ n. n + d.line_num) placed.line
                    ∙ sym parts.0
                    ∙ sym (ap (λ p. p.line_num) way);
                col = sym parts.1 ∙ sym (ap (λ p. p.col_num) way);
              })
      ]

  backward : ptr < s.ptr → IsPlaced buf (get_line_col_cached buf s ptr)
  unfolding get_line_col_cached
  backward k =
      let d = get_line_col (take (s.ptr - ptr) (drop ptr buf)) in
      let at = place_of buf ptr in
      let way = place_of-moved buf ptr s.ptr (omega arith) in
      let behind : leb s.ptr ptr ≡ false = ground arith in
      let line : s.line_num ≡ (moved at d).line_num = placed.line ∙ ap (λ p. p.line_num) way in
      let col : s.col_num ≡ (moved at d).col_num = placed.col ∙ ap (λ p. p.col_num) way in
      elim (Bool-cases (d.line_num == 0)) [
        | inl e ↦
            let parts = moved_same at d e in
            rw (behind, e)
              (record { within = h; line = line ∙ parts.0; col = omega (arith, col, parts.1) })
        | inr e ↦
            let parts = moved_down at d e in
            rw (behind, e)
              (record {
                within = h;
                line = omega (arith, line, parts.0);
                col = column_before-place_of buf ptr h;
              })
      ]

  at_ptr : (get_line_col_cached buf s ptr).ptr ≡ ptr
  unfolding get_line_col_cached
  at_ptr =
      let after = get_line_col (take (ptr - s.ptr) (drop s.ptr buf)) in
      let before = get_line_col (take (s.ptr - ptr) (drop ptr buf)) in
      elim (Bool-cases (leb s.ptr ptr)) [
        | inl k ↦ elim (Bool-cases (after.line_num == 0)) [
          | inl e ↦ rw (k, e) refl
          | inr e ↦ rw (k, e) refl
        ]
        | inr k ↦ elim (Bool-cases (before.line_num == 0)) [
          | inl e ↦ rw (k, e) refl
          | inr e ↦ rw (k, e) refl
        ]
      ]

  -- If the cache holds the line and the column that a scan of the text up to its pointer gives, and
  -- the new pointer is in the text, then `get_line_col_cached` leaves in the cache the new pointer and
  -- the line and the column that a scan of the text up to it gives.
  pub get_line_col_cached-IsPlaced :
      ((get_line_col_cached buf s ptr).ptr ≡ ptr) × IsPlaced buf (get_line_col_cached buf s ptr)
  get_line_col_cached-IsPlaced =
      (at_ptr, elim (dec_le s.ptr ptr) [ yes k ↦ forward k | no k ↦ backward (omega arith) ])

-- A new cache holds the start of the text.
pub IsPlaced-start : (buf : List ℕ) → IsPlaced buf (record { ptr = 0; line_num = 0; col_num = 0 })
unfolding place_of get_line_col scan
IsPlaced-start buf = record { within = omega arith; line = refl; col = refl }
