-- ===== src/BigInt/Convert/Examples.antt =====
-- Words at the ends of their ranges.
use ggjs.Common.{ℕ, ◌-◌, ◌^◌, ◌≡◌, refl, true, List, [], ◌∷◌, length, arith}
use ggjs.Common.Int.{negsuc, ◌-ℤ◌}
use ggjs.BigInt.Repr.{integer}
use ggjs.BigInt.Arith.{Memory, big}
use ggjs.BigInt.Arith.Extend.{IsBig}
use ggjs.BigInt.Convert.Saturate.{clamp, js_bigint_get_si_sat-clamp}
use ggjs.BigInt.Convert.{js_bigint_get_si_sat, js_bigint_new_di, js_bigint_not}
use ggjs.BigInt.Convert.New.{signed, js_bigint_new_di-integer}
use ggjs.BigInt.Convert.Not.{js_bigint_not-integer}

abbrev granting : Memory
granting = record { malloc = λ n. true; realloc = λ n. true }

abbrev largest : ℕ
largest = 2 ^ 64 - 1

-- -2^64 as a `js_sdlimb_t`.
abbrev low : ℕ
low = 2 ^ 128 - 2 ^ 64

abbrev seven : List ℕ
seven = 7 ∷ 1 ∷ []

js_bigint_new_di-integer_example :
    (t : List ℕ) × (js_bigint_new_di granting low ≡ big t) × (integer t ≡ signed 128 low) × IsBig t
js_bigint_new_di-integer_example = js_bigint_new_di-integer granting low (omega arith) refl refl

js_bigint_not-integer_example :
    (t : List ℕ) × (js_bigint_not granting seven ≡ big t)
    × (integer t ≡ negsuc 0 -ℤ integer seven)
    × IsBig t
    × (length t ≡ length seven)
js_bigint_not-integer_example =
    js_bigint_not-integer granting seven ((omega arith, (omega arith, tt)), omega arith)
      (omega arith) refl

js_bigint_get_si_sat-clamp_example : signed 64 (js_bigint_get_si_sat seven) ≡ clamp (integer seven)
js_bigint_get_si_sat-clamp_example =
    js_bigint_get_si_sat-clamp seven ((omega arith, (omega arith, tt)), omega arith) refl
