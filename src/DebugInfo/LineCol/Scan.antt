-- ===== src/DebugInfo/LineCol/Scan.antt =====
-- How the scan of a text is composed from the scans of its parts.
use ggjs.Common.{
  ℕ, zero, suc, ◌+◌, ◌-◌, ◌≤◌, ◌<◌, ◌≡◌, refl, ap, sym, ◌∙◌, List, [], ◌∷◌, ◌++◌, length, get_or,
  take, drop, ◌==◌, arith, Bool-cases, inl, inr, take-append-drop, take-take, drop-take,
}
use mathlib.Core.Path.{ap₂}
use ggjs.DebugInfo.LineCol.{LineCol, advance, scan, get_line_col, newline, starts, column_before}

abbrev origin : LineCol
origin = record { line_num = 0; col_num = 0 }

abbrev place : ℕ → ℕ → LineCol
place l c = record { line_num = l; col_num = c }

-- A place, and the way of so many lines and columns from there to the next.
abbrev pub way : LineCol → (lines columns : ℕ) → LineCol
way at zero c = place at.line_num (at.col_num + c)
way at (suc l) c = place (at.line_num + suc l) c

abbrev pub moved : LineCol → LineCol → LineCol
moved at d = way at d.line_num d.col_num

advance-moved-place :
    (at : LineCol) (l k c : ℕ) → advance (moved at (place l k)) c ≡ moved at (advance (place l k) c)
unfolding advance
advance-moved-place at zero k c = elim (Bool-cases (c == newline)) [
  | inl e ↦ rw e (ap (λ l. place l 0) (omega arith))
  | inr e ↦ elim (Bool-cases (starts c)) [
    | inl f ↦ rw (e, f) (ap (place at.line_num) (omega arith))
    | inr f ↦ rw (e, f) refl
  ]
]
advance-moved-place at (suc l) k c = elim (Bool-cases (c == newline)) [
  | inl e ↦ rw e (ap (λ n. place n 0) (omega arith))
  | inr e ↦ elim (Bool-cases (starts c)) [ inl f ↦ rw (e, f) refl | inr f ↦ rw (e, f) refl ]
]

advance-moved : (at d : LineCol) (c : ℕ) → advance (moved at d) c ≡ moved at (advance d c)
advance-moved at d c = advance-moved-place at d.line_num d.col_num c

scan-moved : (at d : LineCol) (buf : List ℕ) → scan (moved at d) buf ≡ moved at (scan d buf)
unfolding scan
scan-moved at d [] = refl
scan-moved at d (c ∷ buf) =
    ap (λ p. scan p buf) (advance-moved at d c) ∙ scan-moved at (advance d c) buf

pub scan-append : (at : LineCol) (xs ys : List ℕ) → scan at (xs ++ ys) ≡ scan (scan at xs) ys
unfolding scan
scan-append at [] ys = refl
scan-append at (x ∷ xs) ys = scan-append (advance at x) xs ys

moved-origin : (at : LineCol) → moved at origin ≡ at
moved-origin at = ap (place at.line_num) (omega arith)

-- From a place on, the scan of a part tells the way.
pub scan-get_line_col : (at : LineCol) (buf : List ℕ) → scan at buf ≡ moved at (get_line_col buf)
unfolding get_line_col
scan-get_line_col at buf = ap (λ p. scan p buf) (sym (moved-origin at)) ∙ scan-moved at origin buf

-- The place of a pointer.
unfoldable pub place_of : (buf : List ℕ) (p : ℕ) → LineCol
place_of buf p = get_line_col (take p buf)

-- From the place of a pointer to the place of a later one.
pub place_of-moved :
    (buf : List ℕ) (p q : ℕ)
    → p ≤ q
    → place_of buf q ≡ moved (place_of buf p) (get_line_col (take (q - p) (drop p buf)))
unfolding place_of get_line_col
place_of-moved buf p q h =
    let parts : take p (take q buf) ++ drop p (take q buf) ≡ take q buf =
      take-append-drop p (take q buf) in
    ap (scan origin) (sym parts)
    ∙ scan-append origin (take p (take q buf)) (drop p (take q buf))
    ∙ ap₂ (λ x y. scan (scan origin x) y) (take-take p q buf h) (drop-take p q buf)
    ∙ scan-get_line_col (scan origin (take p buf)) (take (q - p) (drop p buf))

take-suc_append :
    (p : ℕ) (buf : List ℕ) → p < length buf → take (suc p) buf ≡ take p buf ++ get_or buf p 0 ∷ []
take-suc_append p [] h = absurd (omega arith)
take-suc_append zero (x ∷ xs) h = refl
take-suc_append (suc p) (x ∷ xs) h = ap (◌∷◌ x) (take-suc_append p xs (omega arith))

-- Going back counts the column from the line's start.
pub column_before-place_of :
    (buf : List ℕ) (p : ℕ) → p ≤ length buf → column_before buf p ≡ (place_of buf p).col_num
unfolding column_before place_of get_line_col scan advance
column_before-place_of buf zero h = refl
column_before-place_of buf (suc p) h =
    let c = get_or buf p 0 in
    let ih = column_before-place_of buf p (omega arith) in
    let last : scan origin (take (suc p) buf) ≡ advance (scan origin (take p buf)) c =
      ap (scan origin) (take-suc_append p buf h) ∙ scan-append origin (take p buf) (c ∷ []) in
    (elim (Bool-cases (c == newline)) [
      | inl e ↦ rw e refl
      | inr e ↦ elim (Bool-cases (starts c)) [
        | inl f ↦ rw (e, f) (ap suc ih)
        | inr f ↦ rw (e, f) ih
      ]
    ])
    ∙ ap (λ x. x.col_num) (sym last)
