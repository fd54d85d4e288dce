-- ===== src/CharRange/Combine.antt =====
-- `cr_op` of libunicode.c and its rounds: set operations on two sets of code points.
use mathlib.Core.Path.{subst, ap₂}
use native.Mathlib.Omega.{compare-lt, compare-eq, compare-gt}
use ggjs.Common.{
  xor-not, xor-false, xor-true, xor-passed, xor-xor_self, xor-true-not, xor-false-same, and-true,
  and-false, ℕ, suc, ◌≤◌, ◌<◌, ◌≡◌, refl, ap, sym, ◌∙◌, Bool, true, false, List, [], ◌∷◌, length,
  leb, ◌&&◌, arith, xor, Bool-cases, Ordering-cases, inl, inr,
}
use ggjs.CharRange.{compare, op_loop, [], is_in, CharRangeOp, note_point, on_ok, CharRange, odd}
use ggjs.CharRange.Grant.{Granted, granted, Granted-on_ok, Granted-mono, cr_add_point-Granted}
use ggjs.CharRange.Set.{
  From-of_Between, inside-append, odd-append, Between-append, Between-mono, inside, From, Between,
  From-weaken, inside-below,
}

-- An increasing array for a given set.
pub record Combination (set : ℕ → Bool) (par : Bool) (r : CharRange) : Type 0 where
  pub sorted : From 0 r.points
  pub status : odd (length r.points) ≡ par
  pub members : (c : ℕ) → inside c r.points ≡ set c

-- How a round that reaches `v` moves in one operand.
record Moved (v i : ℕ) (xs : List ℕ) (i' : ℕ) (rest : List ℕ) : Type 0 where
  from : From v rest
  parity : xor (odd i) (odd (length xs)) ≡ xor (odd i') (odd (length rest))
  past : (c : ℕ) → leb v c ≡ true → xor (odd i) (inside c xs) ≡ xor (odd i') (inside c rest)
  before : (c : ℕ) → leb v c ≡ false → inside c xs ≡ false
  before_rest : (c : ℕ) → leb v c ≡ false → inside c rest ≡ false

below-lt : (v c : ℕ) → leb v c ≡ false → c < v
below-lt v c h = ground arith

above-leb : (v w c : ℕ) → v ≤ w → leb v c ≡ false → leb w c ≡ false
above-leb v w c h k = ground arith

kept : (v i : ℕ) (xs : List ℕ) → From v xs → Moved v i xs i xs
kept v i xs h = record {
  from = h;
  parity = refl;
  past = λ c k. refl;
  before = λ c k. inside-below c v xs h (below-lt v c k);
  before_rest = λ c k. inside-below c v xs h (below-lt v c k);
}

taken : (v i w : ℕ) (xs : List ℕ) → v ≡ w → From w xs → Moved v i (w ∷ xs) (suc i) xs
unfolding odd inside
taken v i w xs e h = record {
  from = From-weaken xs (omega arith) h;
  parity = xor-not (odd i) (odd (length xs));
  past = λ c k.
      ap (λ b. xor (odd i) (xor b (inside c xs))) (ap (λ z. leb z c) (sym e) ∙ k)
      ∙ ap (xor (odd i)) (xor-true (inside c xs))
      ∙ xor-not (odd i) (inside c xs);
  before = λ c k. inside-below c v (w ∷ xs) (omega arith, h) (below-lt v c k);
  before_rest = λ c k. inside-below c w xs h (below-lt w c (above-leb v w c (omega arith) k));
}

-- After the test at the end of a round.
record Noted (cr : CharRange) (v : ℕ) (x y : Bool) (cr' : CharRange) : Type 0 where
  sorted : Between 0 cr'.points v
  status : odd (length cr'.points) ≡ y
  set : (c : ℕ) → inside c cr'.points ≡ xor (inside c cr.points) (leb v c && xor y x)

note_point-Noted :
    (realloc : ℕ → Bool) (op : CharRangeOp) (i j v lo : ℕ) (cr : CharRange)
    → Between 0 cr.points lo
    → lo ≤ v
    → Granted realloc
        (Noted cr v (odd (length cr.points)) (is_in op (odd i) (odd j)))
        (note_point realloc op i j v cr)
unfolding note_point
note_point-Noted realloc op i j v lo cr h k =
    let x : Bool = odd (length cr.points) in
    let y : Bool = is_in op (odd i) (odd j) in
    let up : Between 0 cr.points v = Between-mono 0 cr.points h k in
    elim (Bool-cases (xor y x)) [
      | inl e ↦ rw e (
          Granted-mono (cr_add_point-Granted realloc cr v) λ r p. record {
            sorted = subst (λ ps. Between 0 ps v) (sym p) (Between-append 0 cr.points v up);
            status = ap (λ ps. odd (length ps)) p ∙ odd-append cr.points v ∙ xor-true-not x y e;
            set = λ c.
                ap (inside c) p
                ∙ inside-append c cr.points v
                ∙ ap (xor (inside c cr.points))
                    (sym (and-true (leb v c)) ∙ ap (λ b. leb v c && b) (sym e));
          })
      | inr e ↦ rw e (
          granted (record {
            sorted = up;
            status = xor-false-same x y e;
            set = λ c. sym (
                ap (λ b. xor (inside c cr.points) (leb v c && b)) e
                ∙ ap (xor (inside c cr.points)) (and-false (leb v c))
                ∙ xor-false (inside c cr.points));
          }))
    ]

-- The set that the rest of the rounds leads to.
abbrev pub after : CharRangeOp → (i j : ℕ) → (a b : List ℕ) → CharRange → ℕ → Bool
after op i j a b cr c = xor (inside c cr.points) (
    xor (is_in op (odd i) (odd j)) (is_in op (xor (odd i) (inside c a)) (xor (odd j) (inside c b))))

abbrev pub closed : CharRangeOp → (i j : ℕ) → (a b : List ℕ) → Bool
closed op i j a b = is_in op (xor (odd i) (odd (length a))) (xor (odd j) (odd (length b)))

-- Before any change of the operands the rest of the rounds changes nothing.
unmoved :
    (op : CharRangeOp) (i j : ℕ) (a b : List ℕ) (cr : CharRange) (c : ℕ)
    → inside c a ≡ false
    → inside c b ≡ false
    → after op i j a b cr c ≡ inside c cr.points
unmoved op i j a b cr c h k =
    let same =
      ap₂ (is_in op) (ap (xor (odd i)) h ∙ xor-false (odd i))
        (ap (xor (odd j)) k ∙ xor-false (odd j)) in
    ap (λ z. xor (inside c cr.points) (xor (is_in op (odd i) (odd j)) z)) same
    ∙ xor-xor_self (inside c cr.points) (is_in op (odd i) (odd j))

round-after :
    {v i j i' j' : ℕ} {a b a' b' : List ℕ} (op : CharRangeOp) (cr cr' : CharRange)
    → Moved v i a i' a'
    → Moved v j b j' b'
    → Noted cr v (is_in op (odd i) (odd j)) (is_in op (odd i') (odd j')) cr'
    → (c : ℕ) → after op i' j' a' b' cr' c ≡ after op i j a b cr c
round-after {v} {i} {j} {i'} {j'} {a} {b} {a'} {b'} op cr cr' ma mb noted c =
    let p = inside c cr.points in
    let x = is_in op (odd i) (odd j) in
    let y = is_in op (odd i') (odd j') in
    let z = is_in op (xor (odd i) (inside c a)) (xor (odd j) (inside c b)) in
    elim (Bool-cases (leb v c)) [
      | inl h ↦
          ap₂ (λ q w. xor q (xor y w)) (noted.set c ∙ ap (λ t. xor p (t && xor y x)) h)
            (sym (ap₂ (is_in op) (ma.past c h) (mb.past c h)))
          ∙ xor-passed p x y z
      | inr h ↦
          unmoved op i' j' a' b' cr' c (ma.before_rest c h) (mb.before_rest c h)
          ∙ noted.set c
          ∙ ap (λ t. xor p (t && xor y x)) h
          ∙ xor-false p
          ∙ sym (unmoved op i j a b cr c (ma.before c h) (mb.before c h))
    ]

-- One round, with what the rounds after it do.
round-Combination :
    (realloc : ℕ → Bool) (op : CharRangeOp) {v i j i' j' : ℕ} {a b a' b' : List ℕ}
    → (lo : ℕ) (cr : CharRange) → Moved v i a i' a'
    → Moved v j b j' b'
    → lo ≤ v
    → Between 0 cr.points lo
    → odd (length cr.points) ≡ is_in op (odd i) (odd j)
    → ((r : CharRange)
        → Between 0 r.points v
        → odd (length r.points) ≡ is_in op (odd i') (odd j')
        → Granted realloc
            (Combination (after op i' j' a' b' r) (closed op i' j' a' b'))
            (op_loop realloc op i' j' a' b' r))
    → Granted realloc
        (Combination (after op i j a b cr) (closed op i j a b))
        (on_ok (note_point realloc op i' j' v cr) λ r. op_loop realloc op i' j' a' b' r)
round-Combination realloc op {v} {i} {j} {i'} {j'} {a} {b} {a'} {b'} lo cr ma mb h sorted status
      rest =
    Granted-on_ok (λ r. op_loop realloc op i' j' a' b' r)
      (note_point-Noted realloc op i' j' v lo cr sorted h)
      λ r n.
        let noted : Noted cr v (is_in op (odd i) (odd j)) (is_in op (odd i') (odd j')) r =
          subst (λ x. Noted cr v x (is_in op (odd i') (odd j')) r) status n in
        Granted-mono (rest r noted.sorted noted.status) λ t done. record {
          sorted = done.sorted;
          status = done.status ∙ sym (ap₂ (is_in op) ma.parity mb.parity);
          members = λ c. done.members c ∙ round-after op cr r ma mb noted c;
        }

ended :
    (op : CharRangeOp) (i j lo : ℕ) (cr : CharRange)
    → Between 0 cr.points lo
    → odd (length cr.points) ≡ is_in op (odd i) (odd j)
    → Combination (after op i j [] [] cr) (closed op i j [] []) cr
unfolding odd inside
ended op i j lo cr hs e = record {
  sorted = From-of_Between 0 cr.points lo hs;
  status = e ∙ sym (ap₂ (is_in op) (xor-false (odd i)) (xor-false (odd j)));
  members = λ c. sym (unmoved op i j [] [] cr c refl refl);
}

pub op_loop-Combination :
    (realloc : ℕ → Bool) (op : CharRangeOp) (i j : ℕ) (a b : List ℕ) (lo : ℕ) (cr : CharRange)
    → From lo a
    → From lo b
    → Between 0 cr.points lo
    → odd (length cr.points) ≡ is_in op (odd i) (odd j)
    → Granted realloc
        (Combination (after op i j a b cr) (closed op i j a b))
        (op_loop realloc op i j a b cr)
unfolding op_loop
op_loop-Combination realloc op i j [] [] lo cr ha hb hs e = granted (ended op i j lo cr hs e)
op_loop-Combination realloc op i j (v ∷ a) [] lo cr ha hb hs e =
    round-Combination realloc op lo cr (taken v i v a refl ha.1) (kept v j [] tt) ha.0 hs e
      λ r. op_loop-Combination realloc op (suc i) j a [] v r ha.1 tt
op_loop-Combination realloc op i j [] (w ∷ b) lo cr ha hb hs e =
    round-Combination realloc op lo cr (kept w i [] tt) (taken w j w b refl hb.1) hb.0 hs e
      λ r. op_loop-Combination realloc op i (suc j) [] b w r tt hb.1
op_loop-Combination realloc op i j (v ∷ a) (w ∷ b) lo cr ha hb hs e =
    elim (Ordering-cases (compare v w)) [
      | inl h ↦
          let below = compare-lt v w h in
          let fb : From v (w ∷ b) = (omega arith, hb.1) in
          rw (h, op_loop)
            (round-Combination realloc op lo cr (taken v i v a refl ha.1) (kept v j (w ∷ b) fb) ha.0
              hs e λ r. op_loop-Combination realloc op (suc i) j a (w ∷ b) v r ha.1 fb)
      | inr (inl h) ↦
          let same = compare-eq v w h in
          let fb : From v b = From-weaken b (omega arith) hb.1 in
          rw (h, op_loop)
            (round-Combination realloc op lo cr (taken v i v a refl ha.1) (taken v j w b same hb.1)
              ha.0 hs e λ r. op_loop-Combination realloc op (suc i) (suc j) a b v r ha.1 fb)
      | inr (inr h) ↦
          let below = compare-gt v w h in
          let fa : From w (v ∷ a) = (omega arith, ha.1) in
          rw (h, op_loop)
            (round-Combination realloc op lo cr (kept w i (v ∷ a) fa) (taken w j w b refl hb.1) hb.0
              hs e λ r. op_loop-Combination realloc op i (suc j) (v ∷ a) b w r fa hb.1)
    ]
