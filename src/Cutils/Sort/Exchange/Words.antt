-- ===== src/Cutils/Sort/Exchange/Words.antt =====
-- What the reads and writes of a word in the exchange functions of cutils.c do.
use ggjs.Common.{
  ℕ, zero, suc, ◌+◌, ◌-◌, ◌≤◌, ◌<◌, List, [], ◌∷◌, length, length-set, set, ◌==◌, if◌then◌else◌,
  ◌≡◌, ◌∙◌, ap, ◌⊎◌, inl, inr, arith, eq_or_ne, refl,
}
use ggjs.Common.Run.{Ends, ends, Ends-bind, Ends-mono}
use ggjs.Cutils.Sort.{load}
use ggjs.Cutils.Sort.Array.{key, key-set, key-get_elem?, get_elem?-length}
use ggjs.Cutils.Sort.Exchange.{read, write}

abbrev pub byte : ℕ → ℕ
byte x = x

pub record IsRead (w : ℕ) (m : List ℕ) (i : ℕ) (xs : List ℕ) : Type 0 where
  pub size : length xs ≡ w
  pub bytes : (k : ℕ) → k < w → key byte xs k ≡ key byte m (i + k)

pub record IsWritten (xs m : List ℕ) (i : ℕ) (n : List ℕ) : Type 0 where
  pub size : length n ≡ length m
  pub bytes : (k : ℕ) → k < length xs → key byte n (i + k) ≡ key byte xs k
  pub rest : (k : ℕ) → (k < i) ⊎ (i + length xs ≤ k) → key byte n k ≡ key byte m k

key-cons :
    (x : ℕ) (xs : List ℕ) (k : ℕ)
    → key byte (x ∷ xs) k ≡ (if k == 0 then x else key byte xs (k - 1))
unfolding key
key-cons x xs zero = refl
key-cons x xs (suc k) = ground arith

IsRead-cons :
    {w i x : ℕ} {m xs : List ℕ}
    → key byte m i ≡ x
    → IsRead w m (suc i) xs
    → IsRead (suc w) m i (x ∷ xs)
IsRead-cons {w} {i} {x} {m} {xs} e r = record {
  size = ap suc r.size;
  bytes = λ k q. elim (eq_or_ne k 0) [
    | inl z ↦ let start : i + k ≡ i = omega arith in rw start (grind (arith, key-cons x xs k))
    | inr z ↦
        let step : suc i + (k - 1) ≡ i + k = omega arith in
        let tail = rw step at (r.bytes (k - 1) (omega arith)) in grind (arith, key-cons x xs k)
  ];
}

IsWritten-cons :
    {i x : ℕ} {m n xs : List ℕ}
    → i < length m
    → IsWritten xs (set m i x) (suc i) n
    → IsWritten (x ∷ xs) m i n
IsWritten-cons {i} {x} {m} {n} {xs} h r = record {
  size = r.size ∙ length-set m i x;
  bytes = λ k q. elim (eq_or_ne k 0) [
    | inl z ↦
        let start : i + k ≡ i = omega arith in
        let first = r.rest i (inl (omega arith)) in
        rw start (grind (arith, key-cons x xs k, key-set byte m i i x h))
    | inr z ↦
        let step : suc i + (k - 1) ≡ i + k = omega arith in
        let tail = rw step at (r.bytes (k - 1) (omega arith)) in grind (arith, key-cons x xs k)
  ];
  rest = λ k q.
      let other : (k < suc i) ⊎ (suc i + length xs ≤ k) = grind arith in
      let same = r.rest k other in grind (arith, key-set byte m i k x h);
}

pub read-IsRead : (w : ℕ) (m : List ℕ) (i : ℕ) → i + w ≤ length m → Ends (IsRead w m i) (read w m i)
unfolding read load
read-IsRead zero m i h = ends (record { size = refl; bytes = λ k q. absurd (omega arith) })
read-IsRead (suc w) m i h =
    let (x, e) = get_elem?-length m i (omega arith) in
    rw e (
      Ends-bind (read-IsRead w m (suc i) (omega arith))
        (λ xs r. ends (IsRead-cons (key-get_elem? byte m i x e) r)))

pub write-IsWritten :
    (xs m : List ℕ) (i : ℕ) → i + length xs ≤ length m → Ends (IsWritten xs m i) (write xs m i)
unfolding write load
write-IsWritten [] m i h =
    ends (record { size = refl; bytes = λ k q. absurd (omega arith); rest = λ k q. refl })
write-IsWritten (x ∷ xs) m i h =
    let (y, e) = get_elem?-length m i (omega arith) in
    rw e (
      Ends-mono (write-IsWritten xs (set m i x) (suc i) (rw (length-set m i x) (omega arith)))
        (λ n r. IsWritten-cons (omega arith) r))
