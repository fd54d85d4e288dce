-- ===== src/Cutils/Strings.antt =====
-- `pstrcpy`, `pstrcat`, `strstart` and `has_suffix` of cutils.c. A string that is read is the list of
-- its bytes without the terminator, a buffer that is written the list of all its bytes.
pub mod Copy
pub mod Prefix
mod Examples
use ggjs.Common.{
  ℕ, zero, suc, ◌+◌, ◌-◌, Bool, true, false, List, [], ◌∷◌, ◌++◌, Option, none, some, length, set,
  take, drop, ltb, leb, ◌==◌, ◌&&◌, if◌then◌else◌,
}

-- The bytes before the first terminator.
pub c_string : List ℕ → List ℕ
c_string [] = []
c_string (c ∷ buf) = let rest = c_string buf in if c == 0 then [] else c ∷ rest

-- The loop of `pstrcpy` from `q` on, with room for so many bytes more and the terminator.
pub copy_loop : (buf : List ℕ) (q room : ℕ) (str : List ℕ) → List ℕ
copy_loop buf q room [] = set buf q 0
copy_loop buf q zero (c ∷ str) = set buf q 0
copy_loop buf q (suc room) (c ∷ str) = copy_loop (set buf q c) (suc q) room str

-- A size that is not positive is 0 here.
pub pstrcpy : (buf : List ℕ) (buf_size : ℕ) (str : List ℕ) → List ℕ
pstrcpy buf zero str = buf
pstrcpy buf (suc room) str = copy_loop buf 0 room str

pub pstrcat : (buf : List ℕ) (buf_size : ℕ) (s : List ℕ) → List ℕ
pstrcat buf buf_size s =
    let len = length (c_string buf) in
    if ltb len buf_size then take len buf ++ pstrcpy (drop len buf) (buf_size - len) s else buf

-- What `*ptr` is set to, or none for the return value 0.
pub strstart : (str val : List ℕ) → Option (List ℕ)
strstart str [] = some str
strstart [] (v ∷ val) = none
strstart (c ∷ str) (v ∷ val) = let rest = strstart str val in if c == v then rest else none

pub same_bytes : List ℕ → List ℕ → Bool
same_bytes [] [] = true
same_bytes [] (y ∷ ys) = false
same_bytes (x ∷ xs) [] = false
same_bytes (x ∷ xs) (y ∷ ys) = x == y && same_bytes xs ys

pub has_suffix : (str suffix : List ℕ) → Bool
has_suffix str suffix =
    leb (length suffix) (length str) && same_bytes (drop (length str - length suffix) str) suffix
