-- ===== src/Cutils/Strings/Copy.antt =====
-- `pstrcpy` and `pstrcat` write the string that fits and a terminator.
use mathlib.Core.List.{append_assoc}
use mathlib.Core.Path.{ap₂}
use ggjs.Common.{
  ℕ, zero, suc, ◌+◌, ◌-◌, ◌≤◌, ◌<◌, ◌≡◌, refl, ap, sym, ◌∙◌, false, List, [], ◌∷◌, ◌++◌, length,
  set, take, drop, ◌==◌, arith, length-append, length-drop, take-append_add, lt→ltb, Bool-cases,
  inl, inr,
}
use ggjs.Cutils.Strings.{c_string, copy_loop, pstrcpy, pstrcat}

-- A string holds no terminator.
abbrev pub IsText : List ℕ → Type 0
IsText [] = Unit {0}
IsText (c ∷ s) = (0 < c) × IsText s

set-append :
    (front : List ℕ) (t v : ℕ) (tail : List ℕ)
    → set (front ++ t ∷ tail) (length front) v ≡ front ++ v ∷ tail
set-append [] t v tail = refl
set-append (x ∷ front) t v tail = ap (◌∷◌ x) (set-append front t v tail)

-- What is written: the bytes, the terminator and what was there behind it.
abbrev written : (room : ℕ) (str tail : List ℕ) → List ℕ
written room str tail = take room str ++ 0 ∷ drop (suc (length (take room str))) tail

copy_loop-append :
    (front tail : List ℕ) (room : ℕ) (str : List ℕ)
    → room < length tail
    → copy_loop (front ++ tail) (length front) room str ≡ front ++ written room str tail
unfolding copy_loop
copy_loop-append front [] room str h = absurd (omega arith)
copy_loop-append front (t ∷ tail) zero [] h = set-append front t 0 tail
copy_loop-append front (t ∷ tail) (suc room) [] h = set-append front t 0 tail
copy_loop-append front (t ∷ tail) zero (c ∷ str) h = set-append front t 0 tail
copy_loop-append front (t ∷ tail) (suc room) (c ∷ str) h =
    let next : List ℕ = front ++ c ∷ [] in
    let len : suc (length front) ≡ length next = omega (arith, length-append front (c ∷ [])) in
    ap₂ (λ buf q. copy_loop buf q room str)
      (set-append front t c tail ∙ sym (append_assoc front (c ∷ []) tail)) len
    ∙ copy_loop-append next tail room str (omega arith)
    ∙ append_assoc front (c ∷ []) (written room str tail)

c_string-append : (s tail : List ℕ) → IsText s → c_string (s ++ 0 ∷ tail) ≡ s
unfolding c_string
c_string-append [] tail h = refl
c_string-append (c ∷ s) tail h =
    let byte : (c == 0) ≡ false = ground (arith, h.0) in
    rw byte (ap (◌∷◌ c) (c_string-append s tail h.1))

take-IsText : (n : ℕ) (s : List ℕ) → IsText s → IsText (take n s)
take-IsText zero s h = tt
take-IsText (suc n) [] h = tt
take-IsText (suc n) (c ∷ s) h = (h.0, take-IsText n s h.1)

-- If the buffer has as many bytes as its size says, and at least one, and the source is a string,
-- `pstrcpy` writes the part of it that fits with a terminator, and changes nothing behind.
pub pstrcpy-written :
    (buf : List ℕ) (room : ℕ) (str : List ℕ)
    → room < length buf
    → IsText str
    → (pstrcpy buf (suc room) str ≡ take room str ++ 0 ∷ drop (suc (length (take room str))) buf)
      × (c_string (pstrcpy buf (suc room) str) ≡ take room str)
unfolding pstrcpy
pstrcpy-written buf room str h text =
    let e = copy_loop-append [] buf room str h in
    let kept =
      c_string-append (take room str) (drop (suc (length (take room str))) buf)
        (take-IsText room str text) in
    (e, ap c_string e ∙ kept)

c_string-IsText : (buf : List ℕ) → IsText (c_string buf)
unfolding c_string
c_string-IsText [] = tt
c_string-IsText (c ∷ buf) = elim (Bool-cases (c == 0)) [
  | inl e ↦ rw e tt
  | inr e ↦ rw e (ground arith, c_string-IsText buf)
]

take-c_string : (buf : List ℕ) → take (length (c_string buf)) buf ≡ c_string buf
unfolding c_string
take-c_string [] = refl
take-c_string (c ∷ buf) = elim (Bool-cases (c == 0)) [
  | inl e ↦ rw e refl
  | inr e ↦ rw e (ap (◌∷◌ c) (take-c_string buf))
]

c_string-after : (s t : List ℕ) → IsText s → c_string (s ++ t) ≡ s ++ c_string t
unfolding c_string
c_string-after [] t h = refl
c_string-after (c ∷ s) t h =
    let byte : (c == 0) ≡ false = ground (arith, h.0) in
    rw byte (ap (◌∷◌ c) (c_string-after s t h.1))

-- If the buffer has as many bytes as its size says, holds a string shorter than the size, and the
-- source is a string, `pstrcat` leaves the two strings in a row, cut off where they do not fit.
pub pstrcat-c_string :
    (buf : List ℕ) (buf_size : ℕ) (s : List ℕ)
    → buf_size ≤ length buf
    → IsText s
    → length (c_string buf) < buf_size
    → c_string (pstrcat buf buf_size s) ≡ take (buf_size - 1) (c_string buf ++ s)
unfolding pstrcat
pstrcat-c_string buf buf_size s h text short =
    let len : ℕ = length (c_string buf) in
    let room : ℕ = buf_size - len - 1 in
    let size : buf_size - len ≡ suc room = omega arith in
    let whole : len + room ≡ buf_size - 1 = omega arith in
    let copy = pstrcpy-written (drop len buf) room s (omega (arith, length-drop len buf)) text in
    rw (lt→ltb len buf_size short) (
      ap₂ (λ x n. c_string (x ++ pstrcpy (drop len buf) n s)) (take-c_string buf) size
      ∙ c_string-after (c_string buf) (pstrcpy (drop len buf) (suc room) s) (c_string-IsText buf)
      ∙ ap (λ x. c_string buf ++ x) copy.1
      ∙ sym (take-append_add (c_string buf) s len room refl)
      ∙ ap (λ n. take n (c_string buf ++ s)) whole)
