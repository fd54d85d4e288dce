-- ===== src/Cutils/Sort/Exchange/Blocks.antt =====
-- What the exchange functions of cutils.c do to two blocks of bytes that are the same or do not
-- overlap.
use ggjs.Common.{
  ℕ, zero, suc, ◌+◌, ◌-◌, ◌*◌, ◌≤◌, ◌<◌, List, length, ◌≡◌, ◌∙◌, inl, inr, arith, lt_or_le, refl,
}
use ggjs.Common.Run.{Ends, ends, Ends-bind, Ends-mono}
use ggjs.Cutils.Sort.Array.{key}
use ggjs.Cutils.Sort.Span.{Apart, Exchanged, Exchanged-add}
use ggjs.Cutils.Sort.Exchange.{exchange_word, exchange_pair, exchange_words, exchange_pairs}
use ggjs.Cutils.Sort.Exchange.Words.{byte, IsRead, IsWritten, read-IsRead, write-IsWritten}

-- Two blocks are exchanged within a memory of the same size.
pub record Blocks (a b size : ℕ) (m n : List ℕ) : Type 0 where
  pub length_kept : length n ≡ length m
  pub exchanged : Exchanged byte a b size m n

-- What two writes leave that write each block's bytes over the other.
Blocks-written :
    {w a b : ℕ} {m t u n p : List ℕ}
    → Apart a b w
    → IsRead w m a t
    → IsRead w m b u
    → IsWritten u m a n
    → IsWritten t n b p
    → Blocks a b w m p
unfolding Apart
Blocks-written {w} {a} {b} {m} {t} {u} {n} {p} ab rt ru wn wp =
    let et = rt.size in
    let eu = ru.size in
    let at_a : (k : ℕ) → k < w → key byte n (a + k) ≡ key byte m (b + k) =
      λ k h. wn.bytes k (omega arith) ∙ ru.bytes k h in
    let at_b : (k : ℕ) → k < w → key byte p (b + k) ≡ key byte m (a + k) =
      λ k h. wp.bytes k (omega arith) ∙ rt.bytes k h in
    record {
      length_kept = wp.size ∙ wn.size;
      exchanged = record {
        first = λ x y l h e.
            let ex : a + (x - a) ≡ x = omega arith in
            let ey : b + (x - a) ≡ y = omega arith in
            let here = rw (ex, ey) at (at_a (x - a) (omega arith)) in
            let there = rw (ex, ey) at (at_b (x - a) (omega arith)) in grind (arith, wp.rest x);
        second = λ x y l h e.
            let ex : a + (x - a) ≡ x = omega arith in
            let ey : b + (x - a) ≡ y = omega arith in rw (ex, ey) at (at_b (x - a) (omega arith));
        rest = λ k h h'. wp.rest k (rw et h') ∙ wn.rest k (rw eu h);
      };
    }

pub exchange_word-Blocks :
    (w : ℕ) (m : List ℕ) (a b : ℕ)
    → Apart a b w
    → a + w ≤ length m
    → b + w ≤ length m
    → Ends (Blocks a b w m) (exchange_word w m a b)
unfolding exchange_word
exchange_word-Blocks w m a b ab size_a size = Ends-bind (read-IsRead w m a (omega arith)) (λ t rt.
    Ends-bind (read-IsRead w m b (omega arith)) (λ u ru.
      Ends-bind (write-IsWritten u m a (rw ru.size (omega arith))) (λ n wn.
        Ends-mono (write-IsWritten t n b (rw (rt.size, wn.size) (omega arith)))
          (λ p wp. Blocks-written ab rt ru wn wp))))

Blocks-add :
    {a b m n : ℕ} {u v w : List ℕ}
    → Apart a b (m + n)
    → Blocks a b m u v
    → Blocks (a + m) (b + m) n v w
    → Blocks a b (m + n) u w
Blocks-add ab x y = record {
  length_kept = y.length_kept ∙ x.length_kept;
  exchanged = Exchanged-add byte ab x.exchanged y.exchanged;
}

Blocks-none : (a b : ℕ) (m : List ℕ) → Blocks a b 0 m m
Blocks-none a b m = record {
  length_kept = refl;
  exchanged = record {
    first = λ x y l h e. absurd (omega arith);
    second = λ x y l h e. absurd (omega arith);
    rest = λ k h h'. refl;
  };
}

-- The first blocks and the rest of two blocks.
Apart-parts :
    (a b m n : ℕ) → Apart a b (m + n) → Apart a b m × Apart (a + m) (b + m) n × Apart a b (m + n)
unfolding Apart
Apart-parts a b m n h = (grind arith, grind arith, h)

pub exchange_words-Blocks :
    (w count : ℕ) (m : List ℕ) (a b : ℕ)
    → Apart a b (count * w)
    → a + count * w ≤ length m
    → b + count * w ≤ length m
    → Ends (Blocks a b (count * w) m) (exchange_words w count m a b)
unfolding exchange_words
exchange_words-Blocks w zero m a b ab size_a size =
    let none : 0 * w ≡ 0 = omega arith in rw none (ends (Blocks-none a b m))
exchange_words-Blocks w (suc count) m a b ab size_a size =
    let more : suc count * w ≡ w + count * w = omega arith in
    let (now, later, all) = Apart-parts a b w (count * w) (rw more at ab) in
    Ends-bind (exchange_word-Blocks w m a b now (omega arith) (omega arith)) (λ n x.
      Ends-mono
        (exchange_words-Blocks w count n (a + w) (b + w) later (rw x.length_kept (omega arith))
          (rw x.length_kept (omega arith)))
        (λ p y. rw more (Blocks-add all x y)))

-- What the four writes of a pair of words leave.
pair-written :
    {a b : ℕ} {m t u v w n1 n2 n3 n4 : List ℕ}
    → Apart a b 16
    → IsRead 8 m a t
    → IsRead 8 m (a + 8) u
    → IsRead 8 m b v
    → IsWritten v m a n1
    → IsRead 8 n1 (b + 8) w
    → IsWritten w n1 (a + 8) n2
    → IsWritten t n2 b n3
    → IsWritten u n3 (b + 8) n4
    → Blocks a b 16 m n4
unfolding Apart
pair-written {a} {b} {m} {t} {u} {v} {w} {n1} {n2} {n3} {n4} ab rt ru rv w1 rw2 w2 w3 w4 =
    let et = rt.size in
    let eu = ru.size in
    let ev = rv.size in
    let ew = rw2.size in
    let one : (k : ℕ) → k < 8 → key byte n4 (a + k) ≡ key byte m (b + k) = λ k h. grind (
      arith,
      w4.rest (a + k),
      w3.rest (a + k),
      w3.bytes k,
      w2.rest (a + k),
      w1.bytes k,
      rv.bytes k,
      rt.bytes k,
    ) in
    let two : (k : ℕ) → k < 8 → key byte n4 (a + 8 + k) ≡ key byte m (b + 8 + k) = λ k h. grind (
      arith,
      w4.rest (a + 8 + k),
      w4.bytes k,
      w3.rest (a + 8 + k),
      w2.bytes k,
      rw2.bytes k,
      w1.rest (b + 8 + k),
      ru.bytes k,
    ) in
    let three : (k : ℕ) → k < 8 → key byte n4 (b + k) ≡ key byte m (a + k) =
      λ k h. w4.rest (b + k) (inl (omega arith)) ∙ w3.bytes k (omega arith) ∙ rt.bytes k h in
    let four : (k : ℕ) → k < 8 → key byte n4 (b + 8 + k) ≡ key byte m (a + 8 + k) =
      λ k h. w4.bytes k (omega arith) ∙ ru.bytes k h in
    record {
      length_kept = w4.size ∙ w3.size ∙ w2.size ∙ w1.size;
      exchanged = record {
        first = λ x y l h e. elim (lt_or_le x (a + 8)) [
          | inl z ↦
              let ex : a + (x - a) ≡ x = omega arith in
              let ey : b + (x - a) ≡ y = omega arith in rw (ex, ey) at (one (x - a) (omega arith))
          | inr z ↦
              let ex : a + 8 + (x - a - 8) ≡ x = omega arith in
              let ey : b + 8 + (x - a - 8) ≡ y = omega arith in
              rw (ex, ey) at (two (x - a - 8) (omega arith))
        ];
        second = λ x y l h e. elim (lt_or_le x (a + 8)) [
          | inl z ↦
              let ex : a + (x - a) ≡ x = omega arith in
              let ey : b + (x - a) ≡ y = omega arith in rw (ex, ey) at (three (x - a) (omega arith))
          | inr z ↦
              let ex : a + 8 + (x - a - 8) ≡ x = omega arith in
              let ey : b + 8 + (x - a - 8) ≡ y = omega arith in
              rw (ex, ey) at (four (x - a - 8) (omega arith))
        ];
        rest = λ k h h'.
            w4.rest k (grind arith)
            ∙ w3.rest k (grind arith)
            ∙ w2.rest k (grind arith)
            ∙ w1.rest k (grind arith);
      };
    }

pub exchange_pair-Blocks :
    (m : List ℕ) (a b : ℕ)
    → Apart a b 16
    → a + 16 ≤ length m
    → b + 16 ≤ length m
    → Ends (Blocks a b 16 m) (exchange_pair m a b)
unfolding exchange_pair
exchange_pair-Blocks m a b ab size_a size = Ends-bind (read-IsRead 8 m a (omega arith)) (λ t rt.
    Ends-bind (read-IsRead 8 m (a + 8) (omega arith)) (λ u ru.
      Ends-bind (read-IsRead 8 m b (omega arith)) (λ v rv.
        Ends-bind (write-IsWritten v m a (rw rv.size (omega arith))) (λ n1 w1.
          let s1 = w1.size in
          Ends-bind (read-IsRead 8 n1 (b + 8) (omega arith)) (λ w r2.
            Ends-bind (write-IsWritten w n1 (a + 8) (rw r2.size (omega arith))) (λ n2 w2.
              let s2 = w2.size in
              Ends-bind (write-IsWritten t n2 b (rw rt.size (omega arith))) (λ n3 w3.
                let s3 = w3.size in
                Ends-mono (write-IsWritten u n3 (b + 8) (rw ru.size (omega arith)))
                  (λ n4 w4. pair-written ab rt ru rv w1 r2 w2 w3 w4))))))))

pub exchange_pairs-Blocks :
    (count : ℕ) (m : List ℕ) (a b : ℕ)
    → Apart a b (count * 16)
    → a + count * 16 ≤ length m
    → b + count * 16 ≤ length m
    → Ends (Blocks a b (count * 16) m) (exchange_pairs count m a b)
unfolding exchange_pairs
exchange_pairs-Blocks zero m a b ab size_a size = ends (Blocks-none a b m)
exchange_pairs-Blocks (suc count) m a b ab size_a size =
    let more : suc count * 16 ≡ 16 + count * 16 = omega arith in
    let (now, later, all) = Apart-parts a b 16 (count * 16) (rw more at ab) in
    Ends-bind (exchange_pair-Blocks m a b now (omega arith) (omega arith)) (λ n x.
      Ends-mono
        (exchange_pairs-Blocks count n (a + 16) (b + 16) later (rw x.length_kept (omega arith))
          (rw x.length_kept (omega arith)))
        (λ p y. rw more (Blocks-add all x y)))
