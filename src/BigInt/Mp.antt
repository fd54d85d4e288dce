-- ===== src/BigInt/Mp.antt =====
-- The loops `mp_add` to `mp_shr` of quickjs.c on arrays of limbs. A list argument is the limbs that
-- the loop visits; the limbs that it writes, in place or not, are returned.
mod Examples
pub mod Sum
pub mod Product
pub mod Quotient
pub mod Shift
use ggjs.Common.{ℕ, ◌+◌, ◌-◌, ◌*◌, ◌/◌, ◌%◌, ◌^◌, List, [], ◌∷◌, ltb, ◌||◌, bit_or, bit_and}
use ggjs.BigInt.Limb.{base, limb, limb_bits, dlimb, to_int, snoc, Carried, carried}

-- What one round leaves: the limb that it writes, and what it carries to the next round.
pub record Round : Type 0 where
  pub res : ℕ
  pub next : ℕ

-- ADDC
pub addc : (op1 op2 carry_in : ℕ) → Round
addc op1 op2 k =
    let a = limb (op1 + op2) in
    let r = limb (a + k) in record { res = r; next = to_int (ltb r k || ltb a op1) }

pub mp_add : (op1 op2 : List ℕ) (carry : ℕ) → Carried
mp_add [] ys carry = carried [] carry
mp_add (x ∷ xs) [] carry = carried [] carry
mp_add (x ∷ xs) (y ∷ ys) carry =
    let s = addc x y carry in
    let rest = mp_add xs ys s.next in carried (s.res ∷ rest.limbs) rest.carry

-- The loop body of `mp_sub`; the modulus is added since `-` stops at 0 here.
pub sub_round : (v op2 k : ℕ) → Round
sub_round v op2 k =
    let a = limb (v + base - op2) in
    let r = limb (a + base - k) in record { res = r; next = to_int (ltb a r || ltb v a) }

pub mp_sub : (op1 op2 : List ℕ) (carry : ℕ) → Carried
mp_sub [] ys k = carried [] k
mp_sub (x ∷ xs) [] k = carried [] k
mp_sub (x ∷ xs) (y ∷ ys) k =
    let s = sub_round x y k in
    let rest = mp_sub xs ys s.next in carried (s.res ∷ rest.limbs) rest.carry

pub neg_round : (op2 carry : ℕ) → Round
neg_round x carry =
    let v = limb (base - 1 - x + carry) in record { res = v; next = to_int (ltb v carry) }

pub mp_neg_loop : (op2 : List ℕ) (carry : ℕ) → Carried
mp_neg_loop [] carry = carried [] carry
mp_neg_loop (x ∷ xs) carry =
    let s = neg_round x carry in
    let rest = mp_neg_loop xs s.next in carried (s.res ∷ rest.limbs) rest.carry

pub mp_neg : List ℕ → Carried
mp_neg xs = mp_neg_loop xs 1

pub mp_mul1 : (taba : List ℕ) (b l : ℕ) → Carried
mp_mul1 [] b l = carried [] l
mp_mul1 (x ∷ xs) b l =
    let t = dlimb (x * b + l) in
    let rest = mp_mul1 xs b (t / base) in carried (limb t ∷ rest.limbs) rest.carry

-- From the highest limb down: the loop has passed `xs` when it comes to `x`.
pub mp_div1 : (taba : List ℕ) (b r : ℕ) → Carried
mp_div1 [] b r = carried [] r
mp_div1 (x ∷ xs) b r =
    let high = mp_div1 xs b r in
    let a1 = bit_or (dlimb (high.carry * base)) x in
    carried (limb (a1 / b) ∷ high.limbs) (limb (a1 % b))

add_mul1_loop : (tabr taba : List ℕ) (b l : ℕ) → Carried
add_mul1_loop [] ys b l = carried [] l
add_mul1_loop (x ∷ xs) [] b l = carried [] l
add_mul1_loop (x ∷ xs) (y ∷ ys) b l =
    let t = dlimb (y * b + l + x) in
    let rest = add_mul1_loop xs ys b (t / base) in carried (limb t ∷ rest.limbs) rest.carry

pub mp_add_mul1 : (tabr taba : List ℕ) (b : ℕ) → Carried
unfolding add_mul1_loop
mp_add_mul1 xs ys b = add_mul1_loop xs ys b 0

sub_mul1_loop : (tabr taba : List ℕ) (b l : ℕ) → Carried
sub_mul1_loop [] ys b l = carried [] l
sub_mul1_loop (x ∷ xs) [] b l = carried [] l
sub_mul1_loop (x ∷ xs) (y ∷ ys) b l =
    let t = dlimb (x + 2 ^ 128 + 2 ^ 128 - y * b - l) in
    let rest = sub_mul1_loop xs ys b (limb (base - t / base)) in
    carried (limb t ∷ rest.limbs) rest.carry

pub mp_sub_mul1 : (tabr taba : List ℕ) (b : ℕ) → Carried
unfolding sub_mul1_loop
mp_sub_mul1 xs ys b = sub_mul1_loop xs ys b 0

-- The rounds of `mp_mul_basecase` from `i` on: `window` is `result[i - 1 .. i + op1_size)`, whose
-- lowest limb is final. The call with `result + i` adds to the others, and what it returns goes on
-- top.
mul_rows : (op1 op2 window : List ℕ) → List ℕ
mul_rows op1 ys [] = []
mul_rows op1 [] (x ∷ window) = x ∷ window
mul_rows op1 (y ∷ ys) (x ∷ window) =
    let row = mp_add_mul1 window op1 y in x ∷ mul_rows op1 ys (snoc row.limbs row.carry)

pub mp_mul_basecase : (op1 op2 : List ℕ) → List ℕ
unfolding mul_rows
mp_mul_basecase op1 [] = []
mp_mul_basecase op1 (y ∷ ys) =
    let row = mp_mul1 op1 y 0 in mul_rows op1 ys (snoc row.limbs row.carry)

pub shl_loop : (shift l : ℕ) (taba : List ℕ) → Carried
shl_loop shift l [] = carried [] l
shl_loop shift l (v ∷ vs) =
    let rest = shl_loop shift (v / 2 ^ (limb_bits - shift)) vs in
    carried (bit_or (limb (v * 2 ^ shift)) l ∷ rest.limbs) rest.carry

pub mp_shl : (taba : List ℕ) (shift : ℕ) → Carried
mp_shl vs shift = shl_loop shift 0 vs

-- From the highest limb down, as `mp_div1`: `l` is the limb above.
pub shr_loop : (tab : List ℕ) (shift high : ℕ) → Carried
shr_loop [] shift high = carried [] high
shr_loop (a ∷ rest) shift high =
    let above = shr_loop rest shift high in
    carried (bit_or (a / 2 ^ shift) (limb (above.carry * 2 ^ (limb_bits - shift))) ∷ above.limbs) a

pub mp_shr : (tab : List ℕ) (shift high : ℕ) → Carried
mp_shr tab shift high =
    let done = shr_loop tab shift high in carried done.limbs (bit_and done.carry (2 ^ shift - 1))
