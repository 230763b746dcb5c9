-- ===== src/Text/Laws.antt =====
-- Laws of the text functions: equality decides, and cutting undoes appending.
use mathlib.Core.List.{reverse-append, reverse-reverse}
use mathlib.Core.Option
use mathlib.Core.Option.{some-injective}
use router_docker.Prelude.{
  ◌≡◌, refl, sym, ap, ◌∙◌, ◌↔◌, ◌≢◌, true, false, Option, none, some, List, [], ◌∷◌, ◌++◌, reverse,
  arith,
}
use router_docker.Text.{Bytes, equal, cut_prefix, cut_suffix, contains}

pub equal_iff : (s t : Bytes) → (equal s t ≡ true) ↔ (s ≡ t)
unfolding equal
equal_iff [] [] = ground arith
equal_iff [] (d ∷ t) = ground arith
equal_iff (c ∷ s) [] = ground arith
equal_iff (c ∷ s) (d ∷ t) = ground (arith, equal_iff s t)

pub equal_refl : (a : Bytes) → equal a a ≡ true
equal_refl a = (equal_iff a a).1 refl

pub equal-eq-false : (a b : Bytes) → a ≢ b → equal a b ≡ false
equal-eq-false a b h = ground (arith, equal_iff a b)

pub cut_prefix-append : (p s : Bytes) → cut_prefix (p ++ s) p ≡ some s
unfolding cut_prefix
cut_prefix-append [] [] = refl
cut_prefix-append [] (c ∷ s) = refl
cut_prefix-append (c ∷ p) s = ground (arith, cut_prefix-append p s)

-- Cutting a prefix off is the only way to succeed.
pub cut_prefix-eq-some : (s p r : Bytes) → cut_prefix s p ≡ some r → s ≡ p ++ r
unfolding cut_prefix
cut_prefix-eq-some [] [] r h = ground arith
cut_prefix-eq-some (c ∷ s) [] r h = ground arith
cut_prefix-eq-some [] (p ∷ ps) r h = ground arith
cut_prefix-eq-some (c ∷ s) (p ∷ ps) r h = ground (arith, cut_prefix-eq-some s ps r)

pub cut_suffix-append : (s t : Bytes) → cut_suffix (s ++ t) t ≡ some s
unfolding cut_suffix
cut_suffix-append s t =
    rw (reverse-append s t)
      (rw (cut_prefix-append (reverse t) (reverse s)) (ap some (reverse-reverse s)))

reverse_back : (s t r : Bytes) → reverse s ≡ reverse t ++ r → s ≡ reverse r ++ t
reverse_back s t r h =
    sym (reverse-reverse s)
    ∙ ap reverse h
    ∙ reverse-append (reverse t) r
    ∙ ap (λ (x : Bytes). reverse r ++ x) (reverse-reverse t)

pub cut_suffix-eq-some : (s t r : Bytes) → cut_suffix s t ≡ some r → s ≡ r ++ t
unfolding cut_suffix
cut_suffix-eq-some s t r h = cut_case (cut_prefix (reverse s) (reverse t)) refl h
  where
    cut_case :
        (o : Option Bytes)
        → cut_prefix (reverse s) (reverse t) ≡ o
        → Option.map reverse o ≡ some r
        → s ≡ r ++ t
    cut_case none e q = ground arith
    cut_case (some x) e q =
        reverse_back s t x (cut_prefix-eq-some (reverse s) (reverse t) x e)
        ∙ ap (λ (y : Bytes). y ++ t) (some-injective _ _ q)

pub contains-true_of_equal : (xs : List Bytes) (s : Bytes) → contains (s ∷ xs) s ≡ true
unfolding contains
contains-true_of_equal xs s = rw (equal_refl s)
