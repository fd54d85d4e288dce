-- ===== src/Cutils/DynBuf/Put.antt =====
-- The appends of cutils.c: `dbuf_put` and what calls it.
use ggjs.Common.{
  ◌%◌, ◌∷◌, [], ℕ, ◌+◌, ◌^◌, ◌≤◌, ◌<◌, ◌≡◌, refl, ap, sym, ◌∙◌, true, false, List, ◌++◌, none,
  length, take, drop, arith, ◌⊎◌, ltb, length-append, length-take_le, length-drop, take-append,
  lt→ltb,
}
use mathlib.Core.List.{append_assoc}
use native.Mathlib.Decide.{dec_lt}
use ggjs.Cutils.DynBuf.{
  DynBuf, ReallocFunc, Outcome, done, failed, size_t, poke, capacity, on_done, store_at, reserve,
  dbuf_put, dbuf_putc,
}
use ggjs.Cutils.DynBuf.Memory.{
  IsDynBuf, contents, IsRealloc, Grown, Growth, grew, not_grown, dbuf_realloc-Growth, Grown-self,
}

-- The buffer after an append: the bytes stand behind those that were there.
pub record Appended (s : DynBuf) (bytes : List ℕ) (t : DynBuf) : Type 0 where
  pub valid : IsDynBuf t
  pub same_error : t.error ≡ s.error
  pub appended : contents t ≡ contents s ++ bytes

-- An append was made; or memory was needed and not given, and then the buffer has its error set and
-- nothing else is changed.
pub data Append (realloc : ReallocFunc) (s : DynBuf) (bytes : List ℕ) : Outcome → Type 0 where
  made : {t : DynBuf} → Appended s bytes t → Append realloc s bytes (done t)
  refused :
      {t : DynBuf}
      → t ≡ record s { error = true }
      → s.allocated_size < s.size + length bytes
      → (s.error ≡ true)
        ⊎ (realloc s.buf (capacity s.allocated_size (s.size + length bytes)) ≡ none)
      → Append realloc s bytes (failed t)

-- Bytes stored behind the contents, in memory that is there.
store_lem :
    (t : DynBuf) (bytes : List ℕ)
    → IsDynBuf t
    → t.size + length bytes ≤ t.allocated_size
    → (m : List ℕ) × (store_at t t.size bytes (t.size + length bytes)
        ≡ done (record t { buf = m; size = t.size + length bytes }))
      × (length m ≡ length t.buf)
      × (take (t.size + length bytes) m ≡ contents t ++ bytes)
unfolding store_at poke contents
store_lem t bytes valid room =
    let n : ℕ = t.size + length bytes in
    let front = take t.size t.buf in
    let back = drop n t.buf in
    let fits : ltb (length t.buf) n ≡ false = ground (arith, valid.held) in
    let size = length-take_le t.size t.buf (omega (arith, valid.held, valid.fits)) in
    let whole : length (front ++ (bytes ++ back)) ≡ length t.buf = omega (
      arith,
      length-append front (bytes ++ back),
      length-append bytes back,
      length-drop n t.buf,
      size,
      valid.held,
    ) in
    let new : take n (front ++ (bytes ++ back)) ≡ front ++ bytes =
      ap (take n) (sym (append_assoc front bytes back))
      ∙ take-append (front ++ bytes) back n (omega (arith, length-append front bytes, size)) in
    (front ++ (bytes ++ back), rw (fits, poke, store_at) refl, whole, new)

-- After the growth the append is made.
pub store_behind :
    {realloc : ReallocFunc} {s t : DynBuf} (bytes : List ℕ)
    → s.size + length bytes < 2 ^ 64
    → Grown s (s.size + length bytes) t
    → Append realloc s bytes (store_at t t.size bytes (size_t (t.size + length bytes)))
store_behind {s} {t} bytes small grown =
    let room : t.size + length bytes ≤ t.allocated_size =
      omega (arith, grown.room, grown.same_size) in
    let stored = store_lem t bytes grown.valid room in
    let word : size_t (t.size + length bytes) ≡ t.size + length bytes =
      omega (arith, grown.same_size) in
    rw (word, stored.1)
      (made (record {
        valid = record {
          held = stored.2 ∙ grown.valid.held;
          fits = room;
          bounded = grown.valid.bounded;
        };
        same_error = grown.same_error;
        appended =
            unfold contents in (stored.3 ∙ ap (λ (xs : List ℕ). xs ++ bytes) grown.same_bytes);
      }))

module _ {realloc : ReallocFunc} (law : IsRealloc realloc) {s : DynBuf} (valid : IsDynBuf s) where
  pub reserve-Growth :
      (len : ℕ) → s.size + len < 2 ^ 64 → Growth realloc s (s.size + len) (reserve realloc s len)
  unfolding reserve
  reserve-Growth len small =
      let word : size_t (s.size + len) ≡ s.size + len = omega arith in
      let grow = dbuf_realloc-Growth law valid (s.size + len) small in
      rw word (elim (dec_lt s.allocated_size (s.size + len)) [
        | yes h ↦ rw (lt→ltb _ _ h) grow
        | no h ↦
            let enough : ltb s.allocated_size (s.size + len) ≡ false = ground arith in
            rw enough (grew (Grown-self valid (s.size + len) (omega arith)))
      ])

  put_after :
      (bytes : List ℕ)
      → s.size + length bytes < 2 ^ 64
      → {o : Outcome} → Growth realloc s (s.size + length bytes) o
      → Append realloc s bytes
          (on_done o λ t. store_at t t.size bytes (size_t (t.size + length bytes)))
  put_after bytes small (grew g) = store_behind bytes small g
  put_after bytes small (not_grown e lt why) = refused e lt why

  -- If the sum of the sizes is a `size_t`, `dbuf_put` writes the bytes behind the contents; or it
  -- needed memory that the allocator or the error flag denied, and sets the error and changes nothing
  -- else. It touches no byte outside its memory.
  pub dbuf_put-Append :
      (bytes : List ℕ)
      → s.size + length bytes < 2 ^ 64
      → Append realloc s bytes (dbuf_put realloc s bytes)
  unfolding dbuf_put
  dbuf_put-Append bytes small = put_after bytes small (reserve-Growth (length bytes) small)

  pub dbuf_putc-Append :
      (c : ℕ) → s.size + 1 < 2 ^ 64 → Append realloc s (c % 2 ^ 8 ∷ []) (dbuf_putc realloc s c)
  unfolding dbuf_putc
  dbuf_putc-Append c small = dbuf_put-Append (c % 2 ^ 8 ∷ []) small
