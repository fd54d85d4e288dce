-- ===== src/Cutils/Utf8/Safe.antt =====
-- Decoding reads no byte past the `max_len` that its caller vouches for.
use ggjs.Common.{
  ℕ, zero, suc, ◌-◌, ◌≤◌, ◌<◌, ◌≡◌, refl, Bool, true, false, List, [], ◌∷◌, length, Option, none,
  some, ltb, leb, ◌||◌, if◌then◌else◌, arith, Bool-cases, inl, inr,
}
use ggjs.Cutils.Utf8.{Decoded, code, invalid, fault, follow, collect, from_first, unicode_from_utf8}

-- A read past the end of the bytes.
abbrev pub is_fault : Decoded → Bool
is_fault (code c p) = false
is_fault invalid = false
is_fault fault = true

is_fault_choice :
    (b : Bool) (x y : Decoded)
    → is_fault x ≡ false
    → is_fault y ≡ false
    → is_fault (if b then x else y) ≡ false
is_fault_choice true x y h k = h
is_fault_choice false x y h k = k

is_fault-collect :
    (left c least : ℕ) (p : List ℕ) → left ≤ length p → is_fault (collect left c least p) ≡ false
unfolding collect
is_fault-collect zero c least p h = is_fault_choice (ltb c least) invalid (code c p) refl refl
is_fault-collect (suc left) c least [] h = absurd (omega arith)
is_fault-collect (suc left) c least (b ∷ p) h =
    is_fault_choice (ltb b 0x80 || leb 0xc0 b) invalid _ refl
      (is_fault-collect left _ least p (omega arith))

is_fault-from_first :
    (c max_len : ℕ) (l : Option ℕ) (p : List ℕ)
    → max_len ≤ suc (length p)
    → is_fault (from_first c max_len l p) ≡ false
unfolding from_first
is_fault-from_first c max_len none p h = refl
is_fault-from_first c max_len (some l) p h = elim (Bool-cases (ltb (max_len - 1) l)) [
  | inl e ↦ rw e refl
  | inr e ↦ rw e (is_fault-collect l _ _ p (ground arith))
]

-- If there is a byte, and there are as many as `max_len` says, `unicode_from_utf8` reads none past
-- the end.
pub is_fault-unicode_from_utf8 :
    (p : List ℕ) (max_len : ℕ)
    → 0 < length p
    → max_len ≤ length p
    → is_fault (unicode_from_utf8 p max_len) ≡ false
unfolding unicode_from_utf8
is_fault-unicode_from_utf8 [] max_len h k = absurd (omega arith)
is_fault-unicode_from_utf8 (c ∷ p) max_len h k =
    is_fault_choice (ltb c 0x80) (code c p) (from_first c max_len (follow c) p) refl
      (is_fault-from_first c max_len (follow c) p k)
