-- ===== src/Cutils/DynBuf/Zeroing.antt =====
-- A concrete `realloc_func`, for the tests of what takes an allocator.
use ggjs.Common.{
  length-take_le, take-take, ℕ, ◌≤◌, ◌≡◌, refl, ◌∙◌, ap, some, List, ◌++◌, length, replicate, take,
  arith, length-append, length-replicate, take-append,
}
use ggjs.Cutils.DynBuf.{ReallocFunc}
use ggjs.Cutils.DynBuf.Memory.{IsRealloc}

-- An allocator that fills new memory with zeros.
abbrev pub zeroing : ReallocFunc
zeroing memory n = some (take n (memory ++ replicate n 0))

zeroing_gives : (memory : List ℕ) (n : ℕ) {m : List ℕ} → zeroing memory n ≡ some m → length m ≡ n
zeroing_gives memory n {m} e =
    let same : m ≡ take n (memory ++ replicate n 0) = cc in
    ap length same
    ∙ length-take_le n (memory ++ replicate n 0)
        (omega (arith, length-append memory (replicate n 0), length-replicate {A = ℕ} n 0))

zeroing_keeps :
    (memory : List ℕ) (n : ℕ) {m : List ℕ}
    → zeroing memory n ≡ some m
    → length memory ≤ n
    → take (length memory) m ≡ memory
zeroing_keeps memory n {m} e h =
    let same : m ≡ take n (memory ++ replicate n 0) = cc in
    ap (take (length memory)) same
    ∙ take-take (length memory) n (memory ++ replicate n 0) h
    ∙ take-append memory (replicate n 0) (length memory) refl

pub zeroing-IsRealloc : IsRealloc zeroing
zeroing-IsRealloc = record { gives = zeroing_gives; keeps = zeroing_keeps }
