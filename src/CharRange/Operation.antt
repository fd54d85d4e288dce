-- ===== src/CharRange/Operation.antt =====
-- `cr_op` and what calls it, `cr_op1` and `cr_union_interval`, and `cr_invert`, of libunicode.c.
use mathlib.Core.Path.{ap₂, subst}
use ggjs.Common.{
  if◌then◌else◌, leb→le, ℕ, ◌+◌, ◌-◌, ◌%◌, ◌^◌, ◌≤◌, ◌<◌, ◌≡◌, refl, ap, sym, ◌∙◌, Bool, true,
  false, not, ◌&&◌, ◌||◌, List, [], ◌∷◌, ◌++◌, length, ltb, leb, arith, xor, xor-true, or-false,
  not-not,
}
use ggjs.CharRange.{
  is_in, cr_op_inter, cr_op_xor, cr_op_sub, cr_op_union, CharRange, CharRangeOp, Outcome, ok, odd,
  is_in, cr_init, cr_compress, cr_op, cr_op1, cr_union_interval, cr_invert, cr_op_union,
  cr_op_inter, cr_op_xor, cr_op_sub,
}
use ggjs.CharRange.Set.{
  covers, inside, From, Between, From-of_Between, Between-le, Between-append, inside-append,
  odd-append, covers-eq-inside,
}
use ggjs.CharRange.Grant.{Granted, granted, Granted-on_ok, Granted-mono, cr_realloc-Granted}
use ggjs.CharRange.Combine.{Combination, op_loop-Combination}
use ggjs.CharRange.Compress.{
  Rising, From-of_Rising, cr_compress-even, cr_compress-inside, cr_compress-Rising,
}

is_in-none : (op : CharRangeOp) → is_in op false false ≡ false
is_in-none cr_op_union = refl
is_in-none cr_op_inter = refl
is_in-none cr_op_xor = refl
is_in-none cr_op_sub = refl

-- The intervals of increasing points, none empty and none touching the next, for a given set.
pub record Normal (set : ℕ → Bool) (r : CharRange) : Type 0 where
  pub rising : Rising 0 r.points
  pub whole : odd (length r.points) ≡ false
  pub members : (c : ℕ) → covers c r.points ≡ set c

normalized : (set : ℕ → Bool) (r : CharRange) → Combination set false r → Normal set (cr_compress r)
normalized set r done =
    let rising = cr_compress-Rising 0 r done.sorted in
    let sorted = From-of_Rising 0 0 (cr_compress r).points (omega arith) rising in
    record {
      rising = rising;
      whole = cr_compress-even r;
      members = λ c.
          covers-eq-inside c 0 (cr_compress r).points sorted (cr_compress-even r)
          ∙ cr_compress-inside c r done.status
          ∙ done.members c;
    }

-- Whether a code point is in the result, by whether it is in the operands.
abbrev pub member : CharRangeOp → Bool → Bool → Bool
member cr_op_union a b = if a then true else b
member cr_op_inter a b = if a then b else false
member cr_op_xor a b = if a then not b else b
member cr_op_sub a b = if b then false else a

is_in-member : (op : CharRangeOp) (a b : Bool) → is_in op a b ≡ member op a b
is_in-member cr_op_union true b = refl
is_in-member cr_op_union false b = refl
is_in-member cr_op_inter true b = refl
is_in-member cr_op_inter false b = refl
is_in-member cr_op_xor true true = refl
is_in-member cr_op_xor true false = refl
is_in-member cr_op_xor false b = refl
is_in-member cr_op_sub true true = refl
is_in-member cr_op_sub true false = refl
is_in-member cr_op_sub false true = refl
is_in-member cr_op_sub false false = refl

-- If the points of both operands increase and are even in number, `cr_op` from an empty range leaves
-- the points of the set that the operation makes of the two, strictly increasing and even in number,
-- or memory was refused.
pub cr_op-Normal :
    (realloc : ℕ → Bool) (op : CharRangeOp) (a b : List ℕ)
    → From 0 a
    → From 0 b
    → odd (length a) ≡ false
    → odd (length b) ≡ false
    → Granted realloc
        (Normal λ c. member op (covers c a) (covers c b))
        (cr_op realloc cr_init a b op)
unfolding cr_op odd inside
cr_op-Normal realloc op a b ha hb ea eb =
    let rounds =
      op_loop-Combination realloc op 0 0 a b 0 cr_init ha hb (omega arith) (sym (is_in-none op)) in
    Granted-on_ok (λ done. ok (cr_compress done)) rounds
      λ r done. granted (
        normalized (λ c. member op (covers c a) (covers c b)) r
          (record {
            sorted = done.sorted;
            status = done.status ∙ ap₂ (is_in op) ea eb ∙ is_in-none op;
            members = λ c.
                done.members c
                ∙ ap (λ z. xor z (is_in op (inside c a) (inside c b))) (is_in-none op)
                ∙ sym (ap₂ (is_in op) (covers-eq-inside c 0 a ha ea) (covers-eq-inside c 0 b hb eb))
                ∙ is_in-member op (covers c a) (covers c b);
          }))

ltb-suc : (a b : ℕ) → ltb a (b + 1) ≡ leb a b
ltb-suc a b = ground arith

-- An interval of one operand: the code points from c1 to c2.
interval_lem :
    (c c1 c2 : ℕ)
    → c2 + 1 < 2 ^ 32
    → covers c (c1 ∷ ((c2 + 1) % 2 ^ 32) ∷ []) ≡ (leb c1 c && leb c c2)
unfolding covers
interval_lem c c1 c2 h =
    let word : (c2 + 1) % 2 ^ 32 ≡ c2 + 1 = omega arith in
    or-false (leb c1 c && ltb c ((c2 + 1) % 2 ^ 32))
    ∙ ap (λ n. leb c1 c && ltb c n) word
    ∙ ap (λ b. leb c1 c && b) (ltb-suc c c2)

-- If the points of the range increase and are even in number, c1 is at most c2 + 1 and c2 is not the
-- largest `uint32_t`, `cr_union_interval` adds the code points from c1 to c2 to the set and leaves
-- its points strictly increasing and even in number, or memory was refused.
pub cr_union_interval-Normal :
    (realloc : ℕ → Bool) (cr : CharRange) (c1 c2 : ℕ)
    → From 0 cr.points
    → odd (length cr.points) ≡ false
    → c1 ≤ c2 + 1
    → c2 + 1 < 2 ^ 32
    → Granted realloc
        (Normal λ c. covers c cr.points || (leb c1 c && leb c c2))
        (cr_union_interval realloc cr c1 c2)
unfolding cr_union_interval cr_op1 odd
cr_union_interval-Normal realloc cr c1 c2 h e k small =
    let pair : List ℕ = c1 ∷ ((c2 + 1) % 2 ^ 32) ∷ [] in
    let sorted : From 0 pair = (omega arith, (omega arith, tt)) in
    Granted-mono (cr_op-Normal realloc cr_op_union cr.points pair h sorted e refl) λ r n. record {
      rising = n.rising;
      whole = n.whole;
      members = λ c.
          n.members c
          ∙ sym (is_in-member cr_op_union (covers c cr.points) (covers c pair))
          ∙ ap (λ b. covers c cr.points || b) (interval_lem c c1 c2 small);
    }

leb_of_le : (a b : ℕ) → a ≤ b → leb a b ≡ true
leb_of_le a b h = ground arith

-- From the last point on, what counts is whether there are odd many.
inside-above :
    (c lo : ℕ) (xs : List ℕ) (hi : ℕ) → Between lo xs hi → hi ≤ c → inside c xs ≡ odd (length xs)
unfolding inside odd
inside-above c lo [] hi h k = refl
inside-above c lo (x ∷ xs) hi h k =
    ap₂ xor (leb_of_le x c (omega (arith, Between-le x xs hi h.1))) (inside-above c x xs hi h.1 k)
    ∙ xor-true (odd (length xs))

top_lem :
    (c top : ℕ) (b : Bool)
    → (leb top c ≡ true → b ≡ false)
    → xor true (xor b (leb top c)) ≡ (ltb c top && not b)
top_lem c top true h = ground (arith, h)
top_lem c top false h = ground arith

inverted :
    (top : ℕ) (xs : List ℕ) (size : ℕ)
    → Between 0 xs top
    → odd (length xs) ≡ false
    → Combination
        (λ c. ltb c top && not (covers c xs))
        false
        (record { points = 0 ∷ (xs ++ top ∷ []); size = size })
unfolding inside odd
inverted top xs size h e = record {
  sorted = (omega arith, From-of_Between 0 (xs ++ top ∷ []) top (Between-append 0 xs top h));
  status = ap not (odd-append xs top) ∙ not-not (odd (length xs)) ∙ e;
  members = λ c.
      let same = covers-eq-inside c 0 xs (From-of_Between 0 xs top h) e in
      ap (λ b. xor b (inside c (xs ++ top ∷ []))) (leb_of_le 0 c (omega arith))
      ∙ ap (xor true) (inside-append c xs top)
      ∙ top_lem c top (inside c xs) (λ k. inside-above c 0 xs top h (leb→le top c k) ∙ e)
      ∙ ap (λ b. ltb c top && not b) (sym same);
}

-- If the points of the range increase up to the largest `uint32_t` and are even in number,
-- `cr_invert` leaves the code points below the largest `uint32_t` that were not in the set, as
-- strictly increasing points that are even in number, or memory was refused.
pub cr_invert-Normal :
    (realloc : ℕ → Bool) (cr : CharRange)
    → Between 0 cr.points (2 ^ 32 - 1)
    → odd (length cr.points) ≡ false
    → Granted realloc
        (Normal λ c. ltb c (2 ^ 32 - 1) && not (covers c cr.points))
        (cr_invert realloc cr)
unfolding cr_invert
cr_invert-Normal realloc cr h e =
    let top : ℕ = 2 ^ 32 - 1 in
    let set : ℕ → Bool = λ c. ltb c top && not (covers c cr.points) in
    let next : CharRange → Outcome =
      λ room. ok (cr_compress (record room { points = 0 ∷ (room.points ++ top ∷ []) })) in
    Granted-on_ok next (cr_realloc-Granted realloc cr (length cr.points + 2)) λ r p. granted (
      normalized set (record r { points = 0 ∷ (r.points ++ top ∷ []) })
        (subst (λ ps. Combination set false (record r { points = 0 ∷ (ps ++ top ∷ []) })) (sym p)
          (inverted top cr.points r.size h e)))
