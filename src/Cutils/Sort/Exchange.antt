-- ===== src/Cutils/Sort/Exchange.antt =====
-- The functions that exchange two blocks of bytes, and `exchange_func`, of cutils.c. The memory is a
-- list of bytes, a pointer an index into it; a word is the list of its bytes.
pub mod Words
pub mod Blocks
pub mod Choice
use ggjs.Common.{
  ℕ, zero, suc, ◌+◌, ◌*◌, ◌/◌, List, [], ◌∷◌, set, ◌==◌, ◌||◌, bit_and, bit_or, if◌then◌else◌,
}
use ggjs.Common.Run.{Run, ok, ◌>>=◌}
use ggjs.Cutils.Sort.{load}

pub read : (w : ℕ) → List ℕ → (i : ℕ) → Run (List ℕ)
read zero m i = ok []
read (suc w) m i = do x ← load m i; xs ← read w m (suc i); ok (x ∷ xs)

pub write : List ℕ → List ℕ → (i : ℕ) → Run (List ℕ)
write [] m i = ok m
write (x ∷ xs) m i = do old ← load m i; write xs (set m i x) (suc i)

-- A word of `w` bytes.
pub exchange_word : (w : ℕ) → List ℕ → (a b : ℕ) → Run (List ℕ)
exchange_word w m ap bp = do t ← read w m ap; u ← read w m bp; n ← write u m ap; write t n bp

-- Two words of 8 bytes.
pub exchange_pair : List ℕ → (a b : ℕ) → Run (List ℕ)
exchange_pair m ap bp = do
  t ← read 8 m ap
  u ← read 8 m (ap + 8)
  v ← read 8 m bp
  n1 ← write v m ap
  w ← read 8 n1 (bp + 8)
  n2 ← write w n1 (ap + 8)
  n3 ← write t n2 bp
  write u n3 (bp + 8)

-- The loops, with `count` rounds to go.
pub exchange_words : (w count : ℕ) → List ℕ → (a b : ℕ) → Run (List ℕ)
exchange_words w zero m ap bp = ok m
exchange_words w (suc count) m ap bp = do
  n ← exchange_word w m ap bp
  exchange_words w count n (ap + w) (bp + w)

pub exchange_pairs : (count : ℕ) → List ℕ → (a b : ℕ) → Run (List ℕ)
exchange_pairs zero m ap bp = ok m
exchange_pairs (suc count) m ap bp = do
  n ← exchange_pair m ap bp
  exchange_pairs count n (ap + 16) (bp + 16)

-- `exchange_f`.
abbrev pub Exchange : Type 0
Exchange = List ℕ → (a b size : ℕ) → Run (List ℕ)

pub exchange_bytes : Exchange
exchange_bytes m a b size = exchange_words 1 size m a b

pub exchange_one_byte : Exchange
exchange_one_byte m a b size = exchange_word 1 m a b

pub exchange_int16s : Exchange
exchange_int16s m a b size = exchange_words 2 (size / 2) m a b

pub exchange_one_int16 : Exchange
exchange_one_int16 m a b size = exchange_word 2 m a b

pub exchange_int32s : Exchange
exchange_int32s m a b size = exchange_words 4 (size / 4) m a b

pub exchange_one_int32 : Exchange
exchange_one_int32 m a b size = exchange_word 4 m a b

pub exchange_int64s : Exchange
exchange_int64s m a b size = exchange_words 8 (size / 8) m a b

pub exchange_one_int64 : Exchange
exchange_one_int64 m a b size = exchange_word 8 m a b

pub exchange_int128s : Exchange
exchange_int128s m a b size = exchange_pairs (size / 16) m a b

pub exchange_one_int128 : Exchange
exchange_one_int128 m a b size = exchange_pair m a b

pub exchange_func : (base size : ℕ) → Exchange
exchange_func base size =
    let low = bit_and (bit_or base size) 15 in
    if low == 0
    then if size == 16 then exchange_one_int128 else exchange_int128s
    else if low == 8
    then if size == 8 then exchange_one_int64 else exchange_int64s
    else if low == 4 || low == 12
    then if size == 4 then exchange_one_int32 else exchange_int32s
    else if low == 2 || low == 6 || low == 10 || low == 14
    then if size == 2 then exchange_one_int16 else exchange_int16s
    else if size == 1
    then exchange_one_byte
    else exchange_bytes
