-- ===== src/BigInt/Mp/Sum.antt =====
-- `mp_add`, `mp_sub` and `mp_neg` of quickjs.c, as sums and differences of numbers.
use ggjs.Common.{ℕ, ◌+◌, ◌*◌, ◌≤◌, ◌<◌, ◌≡◌, List, [], ◌∷◌, length, arith, replicate}
use ggjs.BigInt.Limb.{base, value, snoc, total, IsLimbs}
use ggjs.BigInt.Mp.{addc, mp_add, sub_round, mp_sub, neg_round, mp_neg_loop, mp_neg}

-- What ADDC returns is the sum, and two limbs cannot carry more than one.
pub addc_lem :
    (x y k : ℕ)
    → x < base
    → y < base
    → k ≤ 1
    → ((addc x y k).res + base * (addc x y k).next ≡ x + y + k)
      × ((addc x y k).next ≤ 1)
      × ((addc x y k).res < base)
unfolding addc
addc_lem x y k hx hy hk = ground arith

-- For arrays of one length `mp_add` writes the sum with the carry in, the returned carry on top;
-- it writes limbs, as many as it read, and carries at most one.
pub mp_add-value :
    (xs ys : List ℕ) (k : ℕ)
    → length xs ≡ length ys
    → IsLimbs xs
    → IsLimbs ys
    → k ≤ 1
    → (total (mp_add xs ys k) ≡ value xs + value ys + k)
      × IsLimbs (mp_add xs ys k).limbs
      × (length (mp_add xs ys k).limbs ≡ length xs)
      × ((mp_add xs ys k).carry ≤ 1)
unfolding mp_add value snoc
mp_add-value [] [] k e hx hy hk = omega arith
mp_add-value [] (y ∷ ys) k e hx hy hk = absurd (omega arith)
mp_add-value (x ∷ xs) [] k e hx hy hk = absurd (omega arith)
mp_add-value (x ∷ xs) (y ∷ ys) k e hx hy hk =
    let s = addc_lem x y k hx.0 hy.0 hk in
    let ih = mp_add-value xs ys (addc x y k).next (omega arith) hx.1 hy.1 s.1 in
    (omega (arith, s, ih.0), (s.2, ih.1), omega (arith, ih.2), ih.3)

sub_round_lem :
    (x y k : ℕ)
    → x < base
    → y < base
    → k ≤ 1
    → (x + base * (sub_round x y k).next ≡ (sub_round x y k).res + y + k)
      × ((sub_round x y k).next ≤ 1)
      × ((sub_round x y k).res < base)
unfolding sub_round
sub_round_lem x y k hx hy hk = ground arith

-- For arrays of one length `mp_sub` writes the difference less the borrow in: with the returned
-- borrow on top of the first operand it is exact. It writes limbs, as many as it read, and
-- borrows at most one.
pub mp_sub-value :
    (xs ys : List ℕ) (k : ℕ)
    → length xs ≡ length ys
    → IsLimbs xs
    → IsLimbs ys
    → k ≤ 1
    → (value (snoc xs (mp_sub xs ys k).carry) ≡ value (mp_sub xs ys k).limbs + value ys + k)
      × IsLimbs (mp_sub xs ys k).limbs
      × (length (mp_sub xs ys k).limbs ≡ length xs)
      × ((mp_sub xs ys k).carry ≤ 1)
unfolding mp_sub value snoc
mp_sub-value [] [] k e hx hy hk = omega arith
mp_sub-value [] (y ∷ ys) k e hx hy hk = absurd (omega arith)
mp_sub-value (x ∷ xs) [] k e hx hy hk = absurd (omega arith)
mp_sub-value (x ∷ xs) (y ∷ ys) k e hx hy hk =
    let s = sub_round_lem x y k hx.0 hy.0 hk in
    let ih = mp_sub-value xs ys (sub_round x y k).next (omega arith) hx.1 hy.1 s.1 in
    (omega (arith, s, ih.0), (s.2, ih.1), omega (arith, ih.2), ih.3)

neg_round_lem :
    (x k : ℕ)
    → x < base
    → k ≤ 1
    → ((neg_round x k).res + x + 1 + base * (neg_round x k).next ≡ base + k)
      × ((neg_round x k).next ≤ 1)
      × ((neg_round x k).res < base)
unfolding neg_round
neg_round_lem x k hx hk = ground arith

-- The power of the base above an array.
abbrev pub above : List ℕ → ℕ
above xs = value (snoc (replicate (length xs) 0) 1)

mp_neg_loop-value :
    (xs : List ℕ) (k : ℕ)
    → IsLimbs xs
    → k ≤ 1
    → (total (mp_neg_loop xs k) + value xs + 1 ≡ above xs + k)
      × IsLimbs (mp_neg_loop xs k).limbs
      × (length (mp_neg_loop xs k).limbs ≡ length xs)
      × ((mp_neg_loop xs k).carry ≤ 1)
unfolding mp_neg_loop value snoc
mp_neg_loop-value [] k hx hk = omega arith
mp_neg_loop-value (x ∷ xs) k hx hk =
    let s = neg_round_lem x k hx.0 hk in
    let ih = mp_neg_loop-value xs (neg_round x k).next hx.1 s.1 in
    (omega (arith, s, ih.0), (s.2, ih.1), omega (arith, ih.2), ih.3)

-- `mp_neg` writes the two's complement: with the returned carry on top it adds up with the operand
-- to the power of the base above the array. It writes limbs, as many as it read.
pub mp_neg-value :
    (xs : List ℕ)
    → IsLimbs xs
    → (total (mp_neg xs) + value xs ≡ above xs)
      × IsLimbs (mp_neg xs).limbs
      × (length (mp_neg xs).limbs ≡ length xs)
unfolding mp_neg
mp_neg-value xs hx =
    let s = mp_neg_loop-value xs 1 hx (omega arith) in (omega (arith, s.0), s.1, s.2)
