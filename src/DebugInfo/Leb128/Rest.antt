-- ===== src/DebugInfo/Leb128/Rest.antt =====
-- What `get_leb128` and `get_sleb128` of quickjs.c leave is no longer than what they are given.
use ggjs.Common.{
  ℕ, zero, suc, ◌≤◌, Bool, true, false, List, [], ◌∷◌, length, Option, none, some, ◌==◌, bit_and,
  if◌then◌else◌, ◌≡◌, refl, ◌⊎◌, inl, inr, arith,
}
use ggjs.DebugInfo.Leb128.{unfolded, get_rounds, get_leb128, get_sleb128}

-- What is read is in front of what is left.
pub data Left {A : Type 0} (n : ℕ) : Option (A × List ℕ) → Type 0 where
  nothing : Left n none
  left : {a : A} {q : List ℕ} → length q ≤ n → Left n (some (a, q))

Left-if :
    {A : Type 0} {n : ℕ} {x y : Option (A × List ℕ)} (b : Bool)
    → Left n x
    → Left n y
    → Left n (if b then x else y)
Left-if true u v = u
Left-if false u v = v

pub Left-mono : {A : Type 0} {n m : ℕ} {x : Option (A × List ℕ)} → n ≤ m → Left n x → Left m x
Left-mono h nothing = nothing
Left-mono h (left l) = left (omega arith)

get_rounds-Left : (fuel i v : ℕ) (p : List ℕ) → Left (length p) (get_rounds fuel i v p)
unfolding get_rounds
get_rounds-Left zero i v p = nothing
get_rounds-Left (suc fuel) i v [] = nothing
get_rounds-Left (suc fuel) i v (a ∷ p) =
    Left-if (bit_and a 0x80 == 0) (left (omega arith))
      (Left-mono (omega arith) (get_rounds-Left fuel (suc i) _ p))

pub get_leb128-Left : (p : List ℕ) → Left (length p) (get_leb128 p)
unfolding get_leb128
get_leb128-Left p = get_rounds-Left 5 0 0 p

unfolded-Left : {n : ℕ} {o : Option (ℕ × List ℕ)} → Left n o → Left n (unfolded o)
unfolded-Left nothing = nothing
unfolded-Left (left l) = left l

pub get_sleb128-Left : (p : List ℕ) → Left (length p) (get_sleb128 p)
unfolding get_sleb128
get_sleb128-Left p = unfolded-Left (get_leb128-Left p)

pub Left-cases :
    {A : Type 0} {n : ℕ} {o : Option (A × List ℕ)}
    → Left n o
    → (o ≡ none) ⊎ ((a : A) × (q : List ℕ) × (o ≡ some (a, q)) × (length q ≤ n))
Left-cases nothing = inl refl
Left-cases (left {a} {q} l) = inr (a, q, refl, l)
