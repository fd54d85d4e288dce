-- ===== src/Cutils/DynBuf.antt =====
-- The dynamic buffer of cutils.c and cutils.h: `DynBuf` and the `dbuf_*` functions. `realloc_func` is
-- a parameter, and a byte outside the memory that it gave is a fault.
mod Examples
pub mod Memory
pub mod Put
pub mod Write
pub mod Zeroing
use ggjs.Common.{
  ℕ, zero, suc, ◌+◌, ◌*◌, ◌/◌, ◌%◌, ◌^◌, Bool, true, false, List, [], ◌∷◌, ◌++◌, Option, none, some,
  length, take, drop, ltb, leb, ◌==◌, ◌&&◌, ◌||◌, if◌then◌else◌,
}

-- A value of type `size_t`.
abbrev pub size_t : ℕ → ℕ
size_t n = n % 2 ^ 64

-- `buf` is the memory that `s->buf` points to, NULL being no memory.
pub record DynBuf : Type 0 where
  pub buf : List ℕ
  pub size : ℕ
  pub allocated_size : ℕ
  pub error : Bool

-- The new memory with the old bytes in front, or NULL.
abbrev pub ReallocFunc : Type 0
ReallocFunc = List ℕ → ℕ → Option (List ℕ)

-- The return values 0 and -1 with the buffer as it is left, and an access that C leaves undefined.
pub data Outcome : Type 0 where
  done failed : DynBuf → Outcome
  fault : Outcome

-- memcpy to `offset`
unfoldable pub poke : (memory : List ℕ) (offset : ℕ) (bytes : List ℕ) → Option (List ℕ)
poke memory offset bytes =
    if ltb (length memory) (offset + length bytes)
    then none
    else some (take offset memory ++ (bytes ++ drop (offset + length bytes) memory))

-- The bytes that `memcpy` reads from `offset` on.
pub peek : (memory : List ℕ) (offset len : ℕ) → Option (List ℕ)
peek memory offset len =
    if ltb (length memory) (offset + len) then none else some (take len (drop offset memory))

-- dbuf_init2
abbrev pub dbuf_init : DynBuf
dbuf_init = record { buf = []; size = 0; allocated_size = 0; error = false }

-- The capacity that `dbuf_realloc` asks for.
pub capacity : (allocated_size new_size : ℕ) → ℕ
capacity allocated new_size =
    let size = size_t (allocated * 3) / 2 in if ltb new_size size then size else new_size

pub grown : DynBuf → ℕ → Option (List ℕ) → Outcome
grown s n none = failed (record s { error = true })
grown s n (some new_buf) = done (record s { buf = new_buf; allocated_size = n })

-- What a caller does on the return value 0.
abbrev pub on_done : Outcome → (DynBuf → Outcome) → Outcome
on_done (done s) next = next s
on_done (failed s) next = failed s
on_done fault next = fault

-- Bytes written at `offset`, and the size set.
pub store_at : DynBuf → (offset : ℕ) (bytes : List ℕ) (new_size : ℕ) → Outcome
store_at s offset bytes new_size = elim (poke s.buf offset bytes) [
  | none ↦ fault
  | some m ↦ done (record s { buf = m; size = new_size })
]

-- The copy of `dbuf_put_self`. `memcpy` leaves an overlap of the two ranges undefined.
pub copy_self : DynBuf → (offset len : ℕ) → Outcome
copy_self t offset len =
    if ltb 0 len && (ltb offset (t.size + len) && ltb t.size (offset + len))
    then fault
    else elim (peek t.buf offset len) [
      | none ↦ fault
      | some bytes ↦ store_at t t.size bytes (size_t (t.size + len))
    ]

module _ (realloc : ReallocFunc) where
  pub dbuf_realloc : DynBuf → (new_size : ℕ) → Outcome
  dbuf_realloc s new_size =
      if ltb s.allocated_size new_size
      then if s.error
        then failed s
        else (let n = capacity s.allocated_size new_size in grown s n (realloc s.buf n))
      else done s

  pub dbuf_write : DynBuf → (offset : ℕ) (bytes : List ℕ) → Outcome
  dbuf_write s offset bytes =
      let end = size_t (offset + length bytes) in
      on_done (dbuf_realloc s end)
        λ t. store_at t offset bytes (if ltb t.size end then end else t.size)

  -- The test before an append, and the growth.
  pub reserve : DynBuf → (len : ℕ) → Outcome
  reserve s len =
      let end = size_t (s.size + len) in
      if ltb s.allocated_size end then dbuf_realloc s end else done s

  pub dbuf_put : DynBuf → (bytes : List ℕ) → Outcome
  dbuf_put s bytes =
      on_done (reserve s (length bytes))
        λ t. store_at t t.size bytes (size_t (t.size + length bytes))

  pub dbuf_put_self : DynBuf → (offset len : ℕ) → Outcome
  dbuf_put_self s offset len = on_done (reserve s len) λ t. copy_self t offset len

  pub dbuf_putc : DynBuf → ℕ → Outcome
  dbuf_putc s c = dbuf_put s (c % 2 ^ 8 ∷ [])

  -- `text` is the string without its terminator.
  pub dbuf_putstr : DynBuf → (text : List ℕ) → Outcome
  dbuf_putstr s text = dbuf_put s text

  -- `formatted` is what `vsnprintf` makes of the arguments, `none` its negative return value.
  pub dbuf_printf : DynBuf → (formatted : Option (List ℕ)) → Outcome
  dbuf_printf s none = failed s
  dbuf_printf s (some text) =
      if ltb (length text) 128
      then dbuf_put s text
      else on_done (dbuf_realloc s (size_t (size_t (s.size + length text) + 1)))
          λ t. store_at t t.size (text ++ (0 ∷ [])) (size_t (t.size + length text))

-- The bytes of a word in memory, the lowest first.
pub little_endian : (count v : ℕ) → List ℕ
little_endian zero v = []
little_endian (suc n) v = v % 2 ^ 8 ∷ little_endian n (v / 2 ^ 8)

module _ (realloc : ReallocFunc) where
  pub dbuf_put_u16 : DynBuf → ℕ → Outcome
  dbuf_put_u16 s v = dbuf_put realloc s (little_endian 2 v)

  pub dbuf_put_u32 : DynBuf → ℕ → Outcome
  dbuf_put_u32 s v = dbuf_put realloc s (little_endian 4 v)

  pub dbuf_put_u64 : DynBuf → ℕ → Outcome
  dbuf_put_u64 s v = dbuf_put realloc s (little_endian 8 v)

-- dbuf_free: the memory is given back and the fields are cleared.
pub dbuf_free : DynBuf → DynBuf
dbuf_free s = dbuf_init

pub dbuf_set_error : DynBuf → DynBuf
dbuf_set_error s = record s { error = true }
