-- ===== src/Cutils/DynBuf/Write.antt =====
-- `dbuf_write` and `dbuf_put_self` of cutils.c.
use ggjs.Common.{
  take-append_add, drop-take, take-take, max, ℕ, ◌+◌, ◌-◌, ◌^◌, ◌≤◌, ◌<◌, ◌≡◌, refl, ap, sym, ◌∙◌,
  true, false, List, ◌++◌, none, some, length, take, drop, arith, ◌⊎◌, ltb, if◌then◌else◌,
  length-append, length-take_le, length-drop, take-drop-take, max, ◌&&◌,
}
use mathlib.Core.Path.{subst, ap₂}
use ggjs.Cutils.DynBuf.{
  DynBuf, ReallocFunc, Outcome, done, failed, size_t, poke, peek, capacity, on_done, store_at,
  reserve, dbuf_put_self, copy_self, dbuf_write,
}
use ggjs.Cutils.DynBuf.Memory.{
  IsDynBuf, contents, IsRealloc, Grown, Growth, grew, not_grown, dbuf_realloc-Growth,
}
use ggjs.Cutils.DynBuf.Put.{Append, refused, store_behind, reserve-Growth}

-- Reading inside the contents.
peek-contents :
    (t : DynBuf) (offset len : ℕ)
    → IsDynBuf t
    → offset + len ≤ t.size
    → peek t.buf offset len ≡ some (take len (drop offset (contents t)))
unfolding peek contents
peek-contents t offset len valid h =
    let inside : ltb (length t.buf) (offset + len) ≡ false =
      ground (arith, valid.held, valid.fits) in
    rw (inside, peek) (ap some (sym (take-drop-take offset len t.size t.buf h)))

copied_length :
    (offset len : ℕ) (s : DynBuf)
    → IsDynBuf s
    → offset + len ≤ s.size
    → length (take len (drop offset (contents s))) ≡ len
unfolding contents
copied_length offset len s valid inside =
    let whole = length-take_le s.size s.buf (omega (arith, valid.held, valid.fits)) in
    length-take_le len (drop offset (take s.size s.buf))
      (omega (arith, length-drop offset (take s.size s.buf), whole))

copy_after :
    {realloc : ReallocFunc} {s t : DynBuf} (offset : ℕ) (bytes : List ℕ)
    → bytes ≡ take (length bytes) (drop offset (contents s))
    → offset + length bytes ≤ s.size
    → s.size + length bytes < 2 ^ 64
    → Grown s (s.size + length bytes) t
    → Append realloc s bytes (copy_self t offset (length bytes))
unfolding copy_self
copy_after {s} {t} offset bytes e inside small grown =
    let n : ℕ = length bytes in
    let apart : (ltb 0 n && (ltb offset (t.size + n) && ltb t.size (offset + n))) ≡ false =
      ground (arith, grown.same_size) in
    let read : peek t.buf offset n ≡ some bytes =
      peek-contents t offset n grown.valid (omega (arith, grown.same_size))
      ∙ ap (λ (xs : List ℕ). some (take n (drop offset xs))) grown.same_bytes
      ∙ ap some (sym e) in
    rw (apart, read) (store_behind bytes small grown)

module _ {realloc : ReallocFunc} (law : IsRealloc realloc) {s : DynBuf} (valid : IsDynBuf s) where
  self_after :
      (offset : ℕ) (bytes : List ℕ)
      → bytes ≡ take (length bytes) (drop offset (contents s))
      → offset + length bytes ≤ s.size
      → s.size + length bytes < 2 ^ 64
      → {o : Outcome} → Growth realloc s (s.size + length bytes) o
      → Append realloc s bytes (on_done o λ t. copy_self t offset (length bytes))
  self_after offset bytes e inside small (grew g) = copy_after offset bytes e inside small g
  self_after offset bytes e inside small (not_grown f lt why) = refused f lt why

  -- For a range inside the contents, and a new end that is a `size_t`, `dbuf_put_self` appends a copy
  -- of the range, or was denied the memory, sets the error and changes nothing else. Its two ranges never overlap.
  pub dbuf_put_self-Append :
      (offset len : ℕ)
      → offset + len ≤ s.size
      → s.size + len < 2 ^ 64
      → Append realloc s (take len (drop offset (contents s))) (dbuf_put_self realloc s offset len)
  unfolding dbuf_put_self
  dbuf_put_self-Append offset len inside small =
      let bytes = take len (drop offset (contents s)) in
      let n : length bytes ≡ len = copied_length offset len s valid inside in
      subst (λ k. Append realloc s bytes (on_done (reserve realloc s k) λ t. copy_self t offset k))
        n
        (self_after offset bytes (ap (λ (k : ℕ). take k (drop offset (contents s))) (sym n))
          (omega (arith, n)) (omega (arith, n))
          (reserve-Growth law valid (length bytes) (omega (arith, n))))

-- The buffer after `dbuf_write`: the range is overwritten, and what was behind it is kept.
pub record Overwritten (s : DynBuf) (offset : ℕ) (bytes : List ℕ) (t : DynBuf) : Type 0 where
  pub valid : IsDynBuf t
  pub same_error : t.error ≡ s.error
  pub reaches : t.size ≡ max s.size (offset + length bytes)
  pub written :
      contents t ≡ take offset (contents s) ++ (bytes ++ drop (offset + length bytes) (contents s))

-- A write was made; or memory was needed and not given, and then the buffer has its error set and
-- nothing else is changed.
pub data Overwrite (realloc : ReallocFunc) (s : DynBuf) (offset : ℕ) (bytes : List ℕ)
    : Outcome → Type 0 where
  wrote : {t : DynBuf} → Overwritten s offset bytes t → Overwrite realloc s offset bytes (done t)
  denied :
      {t : DynBuf}
      → t ≡ record s { error = true }
      → s.allocated_size < offset + length bytes
      → (s.error ≡ true)
        ⊎ (realloc s.buf (capacity s.allocated_size (offset + length bytes)) ≡ none)
      → Overwrite realloc s offset bytes (failed t)

-- A range stored in memory that holds it, from a place in the contents on.
store_over :
    (t : DynBuf) (offset : ℕ) (bytes : List ℕ)
    → IsDynBuf t
    → offset ≤ t.size
    → offset + length bytes ≤ t.allocated_size
    → let end = offset + length bytes in
      (m : List ℕ) × (store_at t offset bytes (if ltb t.size end then end else t.size)
        ≡ done (record t { buf = m; size = max t.size end }))
      × (length m ≡ length t.buf)
      × (take (max t.size end) m ≡ take offset (contents t) ++ (bytes ++ drop end (contents t)))
unfolding store_at poke contents
store_over t offset bytes valid inside room =
    let end : ℕ = offset + length bytes in
    let front = take offset t.buf in
    let back = drop end t.buf in
    let rest : ℕ = max t.size end - end in
    let fits : ltb (length t.buf) end ≡ false = ground (arith, valid.held) in
    let new_size : (if ltb t.size end then end else t.size) ≡ max t.size end = ground arith in
    let size = length-take_le offset t.buf (omega (arith, valid.held, valid.fits)) in
    let whole : length (front ++ (bytes ++ back)) ≡ length t.buf = omega (
      arith,
      length-append front (bytes ++ back),
      length-append bytes back,
      length-drop end t.buf,
      size,
      valid.held,
    ) in
    let cut : take (max t.size end) (front ++ (bytes ++ back))
        ≡ front ++ (bytes ++ take rest back) =
      ap (λ (n : ℕ). take n (front ++ (bytes ++ back))) (omega arith)
      ∙ take-append_add front (bytes ++ back) offset (length bytes + rest) size
      ∙ ap (λ (xs : List ℕ). front ++ xs) (take-append_add bytes back (length bytes) rest refl) in
    let before : front ≡ take offset (take t.size t.buf) =
      sym (take-take offset t.size t.buf inside) in
    let behind : take rest back ≡ drop end (take t.size t.buf) =
      ap (λ (n : ℕ). take n back) (omega arith) ∙ sym (drop-take end t.size t.buf) in
    (
      front ++ (bytes ++ back),
      rw (fits, poke, new_size, store_at) refl,
      whole,
      cut ∙ ap₂ (λ (xs ys : List ℕ). xs ++ (bytes ++ ys)) before behind,
    )

over_after :
    {realloc : ReallocFunc} {s : DynBuf} (offset : ℕ) (bytes : List ℕ)
    → offset ≤ s.size
    → {o : Outcome} → Growth realloc s (offset + length bytes) o
    → Overwrite realloc s offset bytes (
        on_done o λ t.
          let end = offset + length bytes in
          store_at t offset bytes (if ltb t.size end then end else t.size))
unfolding contents
over_after offset bytes inside (not_grown e lt why) = denied e lt why
over_after {s} offset bytes inside (grew {t} g) =
    let end : ℕ = offset + length bytes in
    let stored = store_over t offset bytes g.valid (omega (arith, g.same_size)) g.room in
    rw stored.1 (
      wrote (record {
        valid = record {
          held = stored.2 ∙ g.valid.held;
          fits = omega (arith, g.valid.fits, g.room);
          bounded = g.valid.bounded;
        };
        same_error = g.same_error;
        reaches = omega (arith, g.same_size);
        written =
            stored.3 ∙ ap (λ (xs : List ℕ). take offset xs ++ (bytes ++ drop end xs)) g.same_bytes;
      }))

-- For a place inside the contents or at their end, and an end that is a `size_t`, `dbuf_write`
-- overwrites the range and keeps the bytes before and behind it; or it was denied the memory, sets
-- the error and changes nothing else.
pub dbuf_write-Overwrite :
    {realloc : ReallocFunc} {s : DynBuf} (offset : ℕ) (bytes : List ℕ)
    → IsRealloc realloc
    → IsDynBuf s
    → offset ≤ s.size
    → offset + length bytes < 2 ^ 64
    → Overwrite realloc s offset bytes (dbuf_write realloc s offset bytes)
unfolding dbuf_write
dbuf_write-Overwrite offset bytes law valid inside small =
    let word : size_t (offset + length bytes) ≡ offset + length bytes = omega arith in
    rw word
      (over_after offset bytes inside (dbuf_realloc-Growth law valid (offset + length bytes) small))
