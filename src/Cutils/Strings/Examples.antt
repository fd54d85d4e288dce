-- ===== src/Cutils/Strings/Examples.antt =====
-- A buffer that a string does not fit in, and the two ends of a name.
use ggjs.Common.{ℕ, ◌≡◌, refl, List, [], ◌∷◌, ◌++◌, length, take, drop, arith}
use ggjs.Cutils.Strings.{c_string, copy_loop, pstrcpy, pstrcat}
use ggjs.Cutils.Strings.Copy.{IsText, pstrcpy-written, pstrcat-c_string}

abbrev buffer : List ℕ
buffer = 97 ∷ 0 ∷ 5 ∷ 5 ∷ 5 ∷ []

abbrev name : List ℕ
name = 98 ∷ 99 ∷ 100 ∷ 101 ∷ []

name-IsText : IsText name
name-IsText = (omega arith, (omega arith, (omega arith, (omega arith, tt))))

cut_off : pstrcpy buffer 3 name ≡ 98 ∷ 99 ∷ 0 ∷ 5 ∷ 5 ∷ []
unfolding pstrcpy copy_loop
cut_off = refl

one_held : length (c_string buffer) ≡ 1
unfolding c_string
one_held = refl

pstrcpy-written_example :
    (pstrcpy buffer 3 name ≡ take 2 name ++ 0 ∷ drop 3 buffer)
    × (c_string (pstrcpy buffer 3 name) ≡ take 2 name)
pstrcpy-written_example = pstrcpy-written buffer 2 name (omega arith) name-IsText

pstrcat-c_string_example : c_string (pstrcat buffer 4 name) ≡ take 3 (c_string buffer ++ name)
pstrcat-c_string_example =
    pstrcat-c_string buffer 4 name (omega arith) name-IsText (omega (arith, one_held))
