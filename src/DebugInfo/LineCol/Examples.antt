-- ===== src/DebugInfo/LineCol/Examples.antt =====
-- A text of two lines, whose second has a character of two bytes.
use ggjs.Common.{ℕ, ◌≡◌, refl, List, [], ◌∷◌, arith}
use ggjs.DebugInfo.LineCol.{GetLineColCache, get_line_col, get_line_col_cached, scan, advance}
use ggjs.DebugInfo.LineCol.Scan.{place_of}
use ggjs.DebugInfo.LineCol.Cache.{IsPlaced, get_line_col_cached-IsPlaced}

abbrev text : List ℕ
text = 97 ∷ 98 ∷ 10 ∷ 99 ∷ 0xc3 ∷ 0xa9 ∷ 100 ∷ []

abbrev at_end : GetLineColCache
at_end = record { ptr = 7; line_num = 1; col_num = 3 }

at_end-IsPlaced : IsPlaced text at_end
unfolding place_of get_line_col scan advance
at_end-IsPlaced = record { within = omega arith; line = refl; col = refl }

get_line_col_cached-IsPlaced_example :
    ((get_line_col_cached text at_end 1).ptr ≡ 1)
    × IsPlaced text (get_line_col_cached text at_end 1)
get_line_col_cached-IsPlaced_example =
    get_line_col_cached-IsPlaced text at_end 1 at_end-IsPlaced (omega arith)
