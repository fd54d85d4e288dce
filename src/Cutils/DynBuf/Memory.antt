-- ===== src/Cutils/DynBuf/Memory.antt =====
-- Well-formed buffers, what `realloc_func` promises, and what growing does.
use ggjs.Common.{
  if◌then◌else◌, ℕ, ◌^◌, ◌≤◌, ◌<◌, ◌≡◌, refl, ap, sym, ◌∙◌, Bool, true, false, List, Option, none,
  some, length, take, arith, ◌⊎◌, inl, inr, ltb, take-take, lt→ltb,
}
use native.Mathlib.Decide.{dec_lt}
use ggjs.Cutils.DynBuf.{DynBuf, ReallocFunc, Outcome, done, failed, capacity, grown, dbuf_realloc}

pub record IsDynBuf (s : DynBuf) : Type 0 where
  pub held : length s.buf ≡ s.allocated_size
  pub fits : s.size ≤ s.allocated_size
  pub bounded : s.allocated_size < 2 ^ 64

-- The bytes that the buffer stands for.
unfoldable pub contents : DynBuf → List ℕ
contents s = take s.size s.buf

-- `realloc` of the C library: memory of the size that was asked for, the old bytes in front.
pub record IsRealloc (realloc : ReallocFunc) : Type 0 where
  pub gives : (memory : List ℕ) (n : ℕ) {m : List ℕ} → realloc memory n ≡ some m → length m ≡ n
  pub keeps :
      (memory : List ℕ) (n : ℕ) {m : List ℕ}
      → realloc memory n ≡ some m
      → length memory ≤ n
      → take (length memory) m ≡ memory

-- `done t` with the same bytes in more memory.
pub record Grown (s : DynBuf) (n : ℕ) (t : DynBuf) : Type 0 where
  pub valid : IsDynBuf t
  pub room : n ≤ t.allocated_size
  pub same_size : t.size ≡ s.size
  pub same_error : t.error ≡ s.error
  pub same_bytes : contents t ≡ contents s

pub Grown-self : {s : DynBuf} → IsDynBuf s → (n : ℕ) → n ≤ s.allocated_size → Grown s n s
Grown-self valid n h = record {
  valid = valid;
  room = h;
  same_size = refl;
  same_error = refl;
  same_bytes = refl;
}

capacity-ge : (a n : ℕ) → n ≤ capacity a n
unfolding capacity
capacity-ge a n = ground arith

capacity-lt : (a n : ℕ) → n < 2 ^ 64 → capacity a n < 2 ^ 64
unfolding capacity
capacity-lt a n h = ground arith

-- Growing did all that was asked; or it was needed and failed, and then the buffer has its error
-- set and nothing else is changed.
pub data Growth (realloc : ReallocFunc) (s : DynBuf) (n : ℕ) : Outcome → Type 0 where
  grew : {t : DynBuf} → Grown s n t → Growth realloc s n (done t)
  not_grown :
      {t : DynBuf}
      → t ≡ record s { error = true }
      → s.allocated_size < n
      → (s.error ≡ true) ⊎ (realloc s.buf (capacity s.allocated_size n) ≡ none)
      → Growth realloc s n (failed t)

set_error : (s : DynBuf) → s.error ≡ true → s ≡ record s { error = true }
set_error s e = ap (λ (b : Bool). record s { error = b }) e

module _ {realloc : ReallocFunc} (law : IsRealloc realloc) {s : DynBuf} (valid : IsDynBuf s) where
  grown-Growth :
      (n : ℕ)
      → s.allocated_size < n
      → n < 2 ^ 64
      → (o : Option (List ℕ)) → realloc s.buf (capacity s.allocated_size n) ≡ o
      → Growth realloc s n (grown s (capacity s.allocated_size n) o)
  unfolding grown
  grown-Growth n small lt none e = not_grown refl small (inr e)
  grown-Growth n small lt (some m) e =
      let cap = capacity s.allocated_size n in
      let ge = capacity-ge s.allocated_size n in
      let kept = law.keeps s.buf cap e (omega (arith, valid.held)) in
      grew (record {
        valid = record {
          held = law.gives s.buf cap e;
          fits = omega (arith, valid.fits);
          bounded = capacity-lt s.allocated_size n lt;
        };
        room = ge;
        same_size = refl;
        same_error = refl;
        same_bytes =
            unfold contents in
            sym (take-take s.size (length s.buf) m (omega (arith, valid.held, valid.fits)))
            ∙ ap (take s.size) kept;
      })

  after_error :
      (n : ℕ)
      → s.allocated_size < n
      → n < 2 ^ 64
      → (b : Bool) → s.error ≡ b
      → let cap = capacity s.allocated_size n in
        Growth realloc s n (if b then failed s else grown s cap (realloc s.buf cap))
  after_error n small lt true e = not_grown (set_error s e) small (inl e)
  after_error n small lt false e =
      grown-Growth n small lt (realloc s.buf (capacity s.allocated_size n)) refl

  -- If the request is a `size_t`, `dbuf_realloc` grows the buffer or fails with its error set.
  pub dbuf_realloc-Growth : (n : ℕ) → n < 2 ^ 64 → Growth realloc s n (dbuf_realloc realloc s n)
  unfolding dbuf_realloc
  dbuf_realloc-Growth n h = elim (dec_lt s.allocated_size n) [
    | yes small ↦ rw (lt→ltb _ _ small) (after_error n small h s.error refl)
    | no large ↦
        let e : ltb s.allocated_size n ≡ false = ground arith in
        rw e (grew (Grown-self valid n (omega arith)))
  ]
