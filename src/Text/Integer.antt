-- ===== src/Text/Integer.antt =====
-- `strconv.ParseInt` in base 10 at 64 bits, which reads back what `FormatInt` writes.
use mathlib.Core.Option
use router_docker.Prelude.{
  ℕ, zero, suc, ◌+◌, ◌-◌, ◌*◌, ◌/◌, ◌%◌, ◌^◌, ◌≤◌, ◌<◌, ◌≡◌, refl, true, false, not, ◌&&◌, Option,
  none, some, [], ◌∷◌, ◌++◌, ltb, leb, ◌==◌, if◌then◌else◌, is_empty, all, arith, Bool-cases, inl,
  inr, all-append_split, and_left,
}
use router_docker.Text.{Bytes, is_digit, split}
use router_docker.Text.Decimal.{ℤ, pos, negsuc, decimal, digits_from}
use router_docker.Text.Lines.{lacks}

pub number_from : ℕ → Bytes → ℕ
number_from acc [] = acc
number_from acc (c ∷ s) = number_from (acc * 10 + (c - b'0')) s

-- `ParseUint`: the digits, with a limit
unfoldable pub parse_digits : ℕ → Bytes → Option ℕ
unfolding number_from
parse_digits limit s =
    if not (is_empty s) && all is_digit s && leb (number_from 0 s) limit
    then some (number_from 0 s)
    else none

negated : Option ℕ → Option ℤ
negated none = none
negated (some zero) = some (pos 0)
negated (some (suc n)) = some (negsuc n)

unfoldable pub parse_int : Bytes → Option ℤ
unfolding parse_digits negated
parse_int [] = none
parse_int (c ∷ s) =
    if c == b'-'
    then negated (parse_digits (2 ^ 63) s)
    else if c == b'+'
    then Option.map pos (parse_digits (2 ^ 63 - 1) s)
    else Option.map pos (parse_digits (2 ^ 63 - 1) (c ∷ s))

number_from-append :
    (acc : ℕ) (s : Bytes) (d : ℕ)
    → number_from acc (s ++ (48 + d) ∷ []) ≡ number_from acc s * 10 + d
unfolding number_from
number_from-append acc [] d = omega arith
number_from-append acc (c ∷ s) d = number_from-append (acc * 10 + (c - b'0')) s d

digits_from-value : (fuel n : ℕ) → n < fuel → number_from 0 (digits_from fuel n) ≡ n
unfolding digits_from
digits_from-value zero n h = absurd (omega arith)
digits_from-value (suc fuel) n h = elim (Bool-cases (ltb n 10)) [
  | inl e ↦ rw e (unfold number_from in omega arith)
  | inr e ↦ rw e (
      rw (number_from-append 0 (digits_from fuel (n / 10)) (n % 10))
        (rw (digits_from-value fuel (n / 10) (ground arith)) (omega arith)))
]

digits_from-digits : (fuel n : ℕ) → all is_digit (digits_from fuel n) ≡ true
unfolding digits_from
digits_from-digits zero n = refl
digits_from-digits (suc fuel) n = elim (Bool-cases (ltb n 10)) [
  | inl e ↦ rw e (ground arith)
  | inr e ↦ rw e (
      all-append_split is_digit (digits_from fuel (n / 10)) ((48 + n % 10) ∷ [])
        (digits_from-digits fuel (n / 10)) (ground arith))
]

append-cons : (s : Bytes) (c : ℕ) → is_empty (s ++ c ∷ []) ≡ false
append-cons [] c = refl
append-cons (d ∷ s) c = refl

decimal-cons : (n : ℕ) → is_empty (decimal n) ≡ false
unfolding decimal digits_from
decimal-cons n = elim (Bool-cases (ltb n 10)) [ inl e ↦ rw e refl | inr e ↦ rw e (append-cons _ _) ]

pub decimal-digits : (n : ℕ) → all is_digit (decimal n) ≡ true
unfolding decimal
decimal-digits n = digits_from-digits (suc n) n

decimal-value : (n : ℕ) → number_from 0 (decimal n) ≡ n
unfolding decimal
decimal-value n = digits_from-value (suc n) n (omega arith)

parse_digits-decimal : (limit n : ℕ) → n ≤ limit → parse_digits limit (decimal n) ≡ some n
unfolding parse_digits
parse_digits-decimal limit n h =
    rw (decimal-cons n) (rw (decimal-digits n) (rw (decimal-value n) (ground arith)))

digit-lacks :
    (sep : ℕ) (s : Bytes) → is_digit sep ≡ false → all is_digit s ≡ true → lacks sep s ≡ true
unfolding lacks
digit-lacks sep [] h a = refl
digit-lacks sep (c ∷ s) h a = ground (arith, digit-lacks sep s)

pub decimal-lacks : (sep n : ℕ) → is_digit sep ≡ false → lacks sep (decimal n) ≡ true
unfolding decimal
decimal-lacks sep n h = digit-lacks sep (decimal n) h (digits_from-digits (suc n) n)

starts_with_digit :
    (s : Bytes)
    → is_empty s ≡ false
    → all is_digit s ≡ true
    → parse_int s ≡ Option.map pos (parse_digits (2 ^ 63 - 1) s)
unfolding parse_int
starts_with_digit [] h a = cc
starts_with_digit (c ∷ s) h a =
    let digit = and_left (is_digit c) _ a in
    let minus : (c == b'-') ≡ false = ground arith in
    let plus : (c == b'+') ≡ false = ground arith in rw minus (rw plus refl)

pub parse_int-decimal : (n : ℕ) → n < 2 ^ 63 → parse_int (decimal n) ≡ some (pos n)
parse_int-decimal n h =
    rw (starts_with_digit (decimal n) (decimal-cons n) (decimal-digits n))
      (rw (parse_digits-decimal (2 ^ 63 - 1) n (omega arith)) refl)

-- a text without the separator is its only piece
pub split-last : (sep : ℕ) (s : Bytes) → lacks sep s ≡ true → split sep s ≡ s ∷ []
unfolding split lacks
split-last sep [] h = refl
split-last sep (x ∷ s) h = ground (arith, split-last sep s)
