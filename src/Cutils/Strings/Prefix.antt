-- ===== src/Cutils/Strings/Prefix.antt =====
-- `strstart` and `has_suffix` tell a string's two ends.
use ggjs.Common.{
  ◌↔◌, ℕ, ◌-◌, ◌≡◌, refl, ap, sym, ◌∙◌, true, false, List, [], ◌∷◌, ◌++◌, some, length, take, drop,
  leb, ◌==◌, ◌&&◌, arith, length-append, take-append-drop, drop-append, Bool-cases, inl, inr,
}
use mathlib.Core.Path.{ap₂}
use ggjs.Cutils.Strings.{strstart, same_bytes, has_suffix}

==-self : (c : ℕ) → (c == c) ≡ true
==-self c = ground arith

strstart-append : (val rest : List ℕ) → strstart (val ++ rest) val ≡ some rest
unfolding strstart
strstart-append [] rest = refl
strstart-append (v ∷ val) rest = rw (==-self v) (strstart-append val rest)

strstart-found : (str val rest : List ℕ) → strstart str val ≡ some rest → str ≡ val ++ rest
unfolding strstart
strstart-found str [] rest h = cc
strstart-found [] (v ∷ val) rest h = absurd (cc)
strstart-found (c ∷ str) (v ∷ val) rest h = ground (arith, strstart-found str val rest)

-- `strstart` finds the rest behind a prefix, just when the string begins with the prefix.
pub strstart-prefix : (str val rest : List ℕ) → (strstart str val ≡ some rest) ↔ (str ≡ val ++ rest)
strstart-prefix str val rest =
    (strstart-found str val rest, λ e. ap (λ s. strstart s val) e ∙ strstart-append val rest)

same_bytes_self : (s : List ℕ) → same_bytes s s ≡ true
unfolding same_bytes
same_bytes_self [] = refl
same_bytes_self (c ∷ s) = rw (==-self c) (same_bytes_self s)

same_bytes-eq : (s t : List ℕ) → same_bytes s t ≡ true → s ≡ t
unfolding same_bytes
same_bytes-eq [] [] h = refl
same_bytes-eq [] (y ∷ t) h = absurd (cc)
same_bytes-eq (x ∷ s) [] h = absurd (cc)
same_bytes-eq (x ∷ s) (y ∷ t) h = elim (Bool-cases (x == y)) [
  | inl e ↦
      let same : x ≡ y = ground arith in
      let rest : same_bytes s t ≡ true = ap (λ b. b && same_bytes s t) (sym e) ∙ h in
      ap₂ (λ z zs. z ∷ zs) same (same_bytes-eq s t rest)
  | inr e ↦ let no : false ≡ true = ap (λ b. b && same_bytes s t) (sym e) ∙ h in absurd (cc)
]

suffix_found :
    (str suffix : List ℕ)
    → has_suffix str suffix ≡ true
    → str ≡ take (length str - length suffix) str ++ suffix
unfolding has_suffix
suffix_found str suffix h =
    let n : ℕ = length str - length suffix in
    elim (Bool-cases (leb (length suffix) (length str))) [
      | inl e ↦
          let rest : same_bytes (drop n str) suffix ≡ true =
            ap (λ b. b && same_bytes (drop n str) suffix) (sym e) ∙ h in
          sym (take-append-drop n str)
          ∙ ap (λ x. take n str ++ x) (same_bytes-eq (drop n str) suffix rest)
      | inr e ↦
          let no : false ≡ true = ap (λ b. b && same_bytes (drop n str) suffix) (sym e) ∙ h in
          absurd (cc)
    ]

suffix-append : (front suffix : List ℕ) → has_suffix (front ++ suffix) suffix ≡ true
unfolding has_suffix
suffix-append front suffix =
    let len = length-append front suffix in
    let fits : leb (length suffix) (length (front ++ suffix)) ≡ true = ground (arith, len) in
    let n : length front ≡ length (front ++ suffix) - length suffix = omega (arith, len) in
    rw fits (
      ap (λ x. same_bytes x suffix)
        (drop-append front suffix (length (front ++ suffix) - length suffix) n)
      ∙ same_bytes_self suffix)

-- `has_suffix` holds just when the string is something with the suffix behind it.
pub has_suffix-suffix :
    (str suffix : List ℕ)
    → (has_suffix str suffix ≡ true) ↔ ((front : List ℕ) × (str ≡ front ++ suffix))
has_suffix-suffix str suffix = (
  λ h. (take (length str - length suffix) str, suffix_found str suffix h),
  λ e. ap (λ s. has_suffix s suffix) e.1 ∙ suffix-append e.0 suffix,
)
