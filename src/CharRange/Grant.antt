-- ===== src/CharRange/Grant.antt =====
-- `cr_realloc` and `cr_add_point` of libunicode.c: what asks for memory and may be refused.
use ggjs.Common.{
  ℕ, ◌+◌, ◌*◌, ◌/◌, max, ltb, ◌++◌, ◌≡◌, refl, ap, Bool, false, [], ◌∷◌, length, leb, Bool-cases,
  inl, inr,
}
use ggjs.CharRange.{[], max, on_ok, cr_realloc, cr_add_point, CharRange, Outcome, ok, err}

-- What a function leaves that may ask for memory.
pub data Granted (realloc : ℕ → Bool) (Good : CharRange → Type 0) : Outcome → Type 0 where
  granted : {r : CharRange} → Good r → Granted realloc Good (ok r)
  refused : {r : CharRange} (n : ℕ) → realloc n ≡ false → Granted realloc Good (err r)

pub Granted-on_ok :
    {realloc : ℕ → Bool} {Good Better : CharRange → Type 0} {o : Outcome}
    (next : CharRange → Outcome)
    → Granted realloc Good o
    → ((r : CharRange) → Good r → Granted realloc Better (next r))
    → Granted realloc Better (on_ok o next)
Granted-on_ok next (granted {r} g) f = f r g
Granted-on_ok next (refused n h) f = refused n h

pub Granted-mono :
    {realloc : ℕ → Bool} {Good Better : CharRange → Type 0} {o : Outcome}
    → Granted realloc Good o
    → ((r : CharRange) → Good r → Better r)
    → Granted realloc Better o
Granted-mono (granted {r} g) f = granted (f r g)
Granted-mono (refused n h) f = refused n h

pub cr_realloc-Granted :
    (realloc : ℕ → Bool) (cr : CharRange) (n : ℕ)
    → Granted realloc (λ r. r.points ≡ cr.points) (cr_realloc realloc cr n)
unfolding cr_realloc
cr_realloc-Granted realloc cr n =
    let new_size : ℕ = max n (cr.size * 3 / 2) in
    elim (Bool-cases (ltb cr.size n)) [
      | inl h ↦ elim (Bool-cases (realloc new_size)) [
        | inl k ↦ rw (h, k) (granted refl)
        | inr k ↦ rw (h, k) (refused new_size k)
      ]
      | inr h ↦ rw h (granted refl)
    ]

pub cr_add_point-Granted :
    (realloc : ℕ → Bool) (cr : CharRange) (v : ℕ)
    → Granted realloc (λ r. r.points ≡ cr.points ++ v ∷ []) (cr_add_point realloc cr v)
unfolding cr_add_point
cr_add_point-Granted realloc cr v =
    let add : CharRange → Outcome = λ room. ok (record room { points = room.points ++ v ∷ [] }) in
    elim (Bool-cases (leb cr.size (length cr.points))) [
      | inl h ↦ rw h (
          Granted-on_ok add (cr_realloc-Granted realloc cr (length cr.points + 1))
            λ r e. granted (ap (λ p. p ++ v ∷ []) e))
      | inr h ↦ rw h (granted refl)
    ]
