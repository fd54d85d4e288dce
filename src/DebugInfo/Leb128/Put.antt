-- ===== src/DebugInfo/Leb128/Put.antt =====
-- What `dbuf_put_leb128` and `dbuf_put_sleb128` write into the buffer.
use mathlib.Core.Path.{subst}
use native.Mathlib.Decide.{dec_lt}
use ggjs.Common.{
  not_lt→ltb, lt→ltb, ℕ, zero, suc, ◌+◌, ◌/◌, ◌%◌, ◌^◌, ◌≤◌, ◌<◌, ◌≡◌, refl, ap, sym, ◌∙◌, true,
  false, List, [], ◌∷◌, ◌++◌, length, ltb, ◌==◌, if◌then◌else◌, bit_and, bit_or, arith,
  length-append, length-take_le,
}
use mathlib.Core.List.{append_assoc, append-nil}
use ggjs.Common.Bits.{bit_and-low, agree_below, checks}
use ggjs.Cutils.DynBuf.{DynBuf, ReallocFunc, Outcome, done, dbuf_putc}
use ggjs.Cutils.DynBuf.Memory.{IsDynBuf, contents, IsRealloc}
use ggjs.Cutils.DynBuf.Put.{Append, made, refused, dbuf_putc-Append}
use ggjs.DebugInfo.Leb128.{ignored, put_rounds, dbuf_put_leb128}

-- The groups of seven bits, the lowest first, with a mark on all but the last.
unfoldable pub groups : (fuel v : ℕ) → List ℕ
groups zero v = []
groups (suc fuel) v =
    let rest = groups fuel (v / 128) in if ltb v 128 then v ∷ [] else (v % 128 + 128) ∷ rest

-- What a writer leaves that looks at no return value: the bytes behind the contents, or the error.
pub data Emitted (s : DynBuf) (bytes : List ℕ) : Outcome → Type 0 where
  emitted :
      {t : DynBuf}
      → IsDynBuf t
      → t.error ≡ s.error
      → contents t ≡ contents s ++ bytes
      → t.size ≡ s.size + length bytes
      → Emitted s bytes (done t)
  spoilt :
      {t : DynBuf}
      → IsDynBuf t
      → t.error ≡ true
      → t.size ≤ s.size + length bytes
      → Emitted s bytes (done t)

length-contents : (t : DynBuf) → IsDynBuf t → length (contents t) ≡ t.size
unfolding contents
length-contents t valid = length-take_le t.size t.buf (omega (arith, valid.held, valid.fits))

-- One byte, then more.
Emitted-then :
    {s : DynBuf} (c : ℕ) (bytes : List ℕ) {t : DynBuf} {o : Outcome}
    → t.error ≡ s.error
    → contents t ≡ contents s ++ c ∷ []
    → t.size ≡ s.size + 1
    → Emitted t bytes o
    → Emitted s (c ∷ bytes) o
Emitted-then {s} c bytes e h k (emitted valid f g l) =
    emitted valid (f ∙ e) (g ∙ ap (λ xs. xs ++ bytes) h ∙ append_assoc (contents s) (c ∷ []) bytes)
      (omega (arith, l, k))
Emitted-then c bytes e h k (spoilt valid f l) = spoilt valid f (omega (arith, k, l))

-- After an error the rest may or may not be written.
Emitted-spoilt :
    {s : DynBuf} (c : ℕ) (bytes : List ℕ) {t : DynBuf} {o : Outcome}
    → t.error ≡ true
    → t.size ≡ s.size
    → Emitted t bytes o
    → Emitted s (c ∷ bytes) o
Emitted-spoilt c bytes e k (emitted valid f g l) = spoilt valid (f ∙ e) (omega (arith, l, k))
Emitted-spoilt c bytes e k (spoilt valid f l) = spoilt valid f (omega (arith, l, k))

spoilt-IsDynBuf : {s t : DynBuf} → IsDynBuf s → t ≡ record s { error = true } → IsDynBuf t
spoilt-IsDynBuf {s} {t} valid e =
    let size : t.size ≡ s.size = ap (λ x. x.size) e in
    let room : t.allocated_size ≡ s.allocated_size = ap (λ x. x.allocated_size) e in
    record {
      held = ap (λ x. length x.buf) e ∙ valid.held ∙ sym room;
      fits = omega (arith, valid.fits, size, room);
      bounded = omega (arith, valid.bounded, room);
    }

last_test : (v : ℕ) → v < 128 → (v / 2 ^ 7 == 0) ≡ true
last_test v k = ground arith

more_test : (v : ℕ) → ¬ (v < 128) → (v / 2 ^ 7 == 0) ≡ false
more_test v k = ground arith

last_byte : (v : ℕ) → v < 128 → bit_and v 0x7f % 2 ^ 8 ≡ v
last_byte v k = omega (arith, bit_and-low 7 v)

marked : (a : ℕ) → a < 128 → bit_or a 0x80 % 2 ^ 8 ≡ a + 128
unfolding checks
marked a h = agree_below 128 (λ x. bit_or x 0x80 % 2 ^ 8) (λ x. x + 128) a refl h

more_byte : (v : ℕ) → bit_or (bit_and v 0x7f) 0x80 % 2 ^ 8 ≡ v % 128 + 128
more_byte v = ap (λ x. bit_or x 0x80 % 2 ^ 8) (bit_and-low 7 v) ∙ marked (v % 128) (omega arith)

module _ {realloc : ReallocFunc} (law : IsRealloc realloc) where
  pub putc-Emitted :
      {s : DynBuf} (c : ℕ) (bytes : List ℕ) (next : DynBuf → Outcome) {o : Outcome}
      → IsDynBuf s
      → Append realloc s (c ∷ []) o
      → ((t : DynBuf) → IsDynBuf t → t.size ≤ s.size + 1 → Emitted t bytes (next t))
      → Emitted s (c ∷ bytes) (ignored o next)
  putc-Emitted {s} c bytes next valid (made {t} a) rest =
      let size : t.size ≡ s.size + 1 = omega (
        arith,
        length-contents t a.valid,
        ap length a.appended,
        length-append (contents s) (c ∷ []),
        length-contents s valid,
      ) in
      Emitted-then c bytes a.same_error a.appended size (rest t a.valid (omega (arith, size)))
  putc-Emitted {s} c bytes next valid (refused {t} e lt why) rest =
      let size : t.size ≡ s.size = ap (λ x. x.size) e in
      let still : IsDynBuf t = spoilt-IsDynBuf valid e in
      Emitted-spoilt c bytes (ap (λ x. x.error) e) size (rest t still (omega (arith, size)))

  put_rounds-Emitted :
      (fuel : ℕ) (s : DynBuf) (v : ℕ)
      → IsDynBuf s
      → s.size + fuel < 2 ^ 64
      → Emitted s (groups fuel v) (put_rounds realloc fuel s v)
  unfolding put_rounds groups
  put_rounds-Emitted zero s v valid h =
      emitted valid refl (sym (append-nil (contents s))) (omega arith)
  put_rounds-Emitted (suc fuel) s v valid h = elim (dec_lt v 128) [
    | yes k ↦
        rw (lt→ltb v 128 k, last_test v k)
          (subst
            (λ b. Emitted s (b ∷ []) (ignored (dbuf_putc realloc s (bit_and v 0x7f)) λ t. done t))
            (last_byte v k)
            (putc-Emitted (bit_and v 0x7f % 2 ^ 8) [] (λ t. done t) valid
              (dbuf_putc-Append law valid (bit_and v 0x7f) (omega arith))
              λ t ok room. emitted ok refl (sym (append-nil (contents t))) (omega arith)))
    | no k ↦
        rw (not_lt→ltb v 128 k, more_test v k)
          (rw (sym (more_byte v)) (
            putc-Emitted (bit_or (bit_and v 0x7f) 0x80 % 2 ^ 8) (groups fuel (v / 128))
              (λ t. put_rounds realloc fuel t (v / 2 ^ 7)) valid
              (dbuf_putc-Append law valid (bit_or (bit_and v 0x7f) 0x80) (omega arith))
              λ t ok room. put_rounds-Emitted fuel t (v / 2 ^ 7) ok (omega arith)))
  ]

  -- For a valid buffer with five bytes to go to the largest `size_t`, `dbuf_put_leb128` writes the
  -- groups of the number behind the contents and keeps the error flag, or leaves the error flag set;
  -- the buffer stays valid and no byte outside its memory is touched.
  pub dbuf_put_leb128-Emitted :
      (s : DynBuf) (v : ℕ)
      → IsDynBuf s
      → s.size + 5 < 2 ^ 64
      → Emitted s (groups 5 v) (dbuf_put_leb128 realloc s v)
  unfolding dbuf_put_leb128
  dbuf_put_leb128-Emitted s v valid h = put_rounds-Emitted 5 s v valid h
