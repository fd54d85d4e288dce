-- ===== src/Cutils/Utf8/Examples.antt =====
-- UTF-8 at single codes.
use ggjs.Common.{false, ◌^◌, ◌<◌, ◌≡◌, refl, [], ◌∷◌, ◌++◌, arith}
use ggjs.Cutils.Utf8.{
  first, cont, from_first, follow, collect, unicode_to_utf8, unicode_from_utf8, code, invalid,
}
use ggjs.Cutils.Utf8.Safe.{is_fault, is_fault-unicode_from_utf8}
use ggjs.Cutils.Utf8.RoundTrip.{unicode_from_utf8-unicode_to_utf8}
use ggjs.Cutils.Utf8.Canonical.{unicode_to_utf8-unicode_from_utf8}

euro : unicode_to_utf8 0x20ac ≡ 0xe2 ∷ 0x82 ∷ 0xac ∷ []
unfolding unicode_to_utf8 first cont
euro = refl

unicode_from_utf8-unicode_to_utf8_example :
    unicode_from_utf8 (unicode_to_utf8 0x20ac ++ (65 ∷ [])) 6 ≡ code 0x20ac (65 ∷ [])
unicode_from_utf8-unicode_to_utf8_example =
    unicode_from_utf8-unicode_to_utf8 0x20ac 6 (65 ∷ []) (omega arith) (rw euro (omega arith))

-- A slash in two bytes is refused.
overlong : unicode_from_utf8 (0xc0 ∷ 0xaf ∷ []) 6 ≡ invalid
unfolding unicode_from_utf8 from_first follow collect
overlong = refl

decoded_euro : unicode_from_utf8 (0xe2 ∷ 0x82 ∷ 0xac ∷ 65 ∷ []) 6 ≡ code 0x20ac (65 ∷ [])
unfolding unicode_from_utf8 from_first follow collect
decoded_euro = refl

unicode_to_utf8-unicode_from_utf8_example :
    (unicode_to_utf8 0x20ac ++ (65 ∷ []) ≡ 0xe2 ∷ 0x82 ∷ 0xac ∷ 65 ∷ []) × (0x20ac < 2 ^ 31)
unicode_to_utf8-unicode_from_utf8_example =
    unicode_to_utf8-unicode_from_utf8 (0xe2 ∷ 0x82 ∷ 0xac ∷ 65 ∷ []) (65 ∷ []) 6 0x20ac decoded_euro

is_fault-unicode_from_utf8_example : is_fault (unicode_from_utf8 (0xe2 ∷ 0x82 ∷ []) 2) ≡ false
is_fault-unicode_from_utf8_example =
    is_fault-unicode_from_utf8 (0xe2 ∷ 0x82 ∷ []) 2 (omega arith) (omega arith)
