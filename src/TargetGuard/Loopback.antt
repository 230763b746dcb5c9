-- ===== src/TargetGuard/Loopback.antt =====
-- The whole of 127.0.0.0/8 is the router itself.
use mathlib.Core.List.{reverse-append, reverse-reverse}
use router_docker.Prelude.{
  ℕ, zero, suc, ◌+◌, ◌*◌, ◌^◌, ◌/◌, ◌%◌, ◌<◌, ◌≡◌, refl, ap, ap₂, ◌∙◌, inl, inr, Bool, true, false,
  ◌&&◌, ◌||◌, Option, none, some, List, [], ◌∷◌, ◌++◌, reverse, all, any, arith, ◌==◌, err,
  validation, Bool-cases, all-append_split, and_left, and_right,
}
use router_docker.Text.{Bytes, codes, lower, to_lower, trim, trim_left, is_digit, split}
use router_docker.Text.Decimal.{decimal}
use router_docker.Text.Lines.{lacks, split-lacks}
use router_docker.Text.Integer.{decimal-lacks, decimal-digits, split-last}
use router_docker.Net.Address.{
  octet, quad_of, parse_ipv4, parse_addr, parse_ip, family, mapped, to4, is_loopback,
}
use router_docker.TargetGuard.Safety.{is_self_host-to_lower}
use router_docker.TargetGuard.{
  is_bracket, is_self_address, normal_host, is_self_host, validate_host,
}

-- a property of the numbers below a bound, by evaluation
all_below : ℕ → (ℕ → Bool) → Bool
all_below zero p = true
all_below (suc n) p = p n && all_below n p

all_below-at : (n : ℕ) (p : ℕ → Bool) (k : ℕ) → all_below n p ≡ true → k < n → p k ≡ true
unfolding all_below
all_below-at zero p k h lt = absurd (omega arith)
all_below-at (suc n) p k h lt = elim (Bool-cases (k == n)) [
  | inl e ↦ let same : k ≡ n = ground arith in ap p same ∙ and_left (p n) _ h
  | inr e ↦ all_below-at n p k (and_right (p n) _ h) (ground arith)
]

is_value : Option ℕ → ℕ → Bool
is_value none k = false
is_value (some v) k = v == k

is_value-eq : (o : Option ℕ) (k : ℕ) → is_value o k ≡ true → o ≡ some k
unfolding is_value
is_value-eq none k h = cc
is_value-eq (some v) k h = ground arith

octets_checked : all_below 256 (λ k. is_value (octet (decimal k)) k) ≡ true
unfolding all_below octet decimal is_value
octets_checked = refl

octet-decimal : (k : ℕ) → k < 256 → octet (decimal k) ≡ some k
octet-decimal k lt =
    is_value-eq (octet (decimal k)) k
      (all_below-at 256 (λ j. is_value (octet (decimal j)) j) k octets_checked lt)

-- `127.a.b.c`
abbrev pub loopback_text : ℕ → ℕ → ℕ → Bytes
loopback_text a b c = codes "127." ++ (decimal a ++ (b'.' ∷ (decimal b ++ (b'.' ∷ decimal c))))

split-loopback_text :
    (a b c : ℕ)
    → split b'.' (loopback_text a b c) ≡ codes "127" ∷ decimal a ∷ decimal b ∷ decimal c ∷ []
split-loopback_text a b c =
    split-lacks b'.' (codes "127") _ (unfold lacks in refl)
    ∙ ap (λ (r : List Bytes). codes "127" ∷ r)
        (split-lacks b'.' (decimal a) _ (decimal-lacks b'.' a refl)
          ∙ ap (λ (r : List Bytes). decimal a ∷ r)
              (split-lacks b'.' (decimal b) _ (decimal-lacks b'.' b refl)
                ∙ ap (λ (r : List Bytes). decimal b ∷ r)
                    (split-last b'.' (decimal c) (decimal-lacks b'.' c refl))))

abbrev loopback_value : ℕ → ℕ → ℕ → ℕ
loopback_value a b c = ((127 * 256 + a) * 256 + b) * 256 + c

parse_ipv4-loopback :
    (a b c : ℕ)
    → a < 256
    → b < 256
    → c < 256
    → parse_ipv4 (loopback_text a b c) ≡ some (loopback_value a b c)
unfolding parse_ipv4 quad_of
parse_ipv4-loopback a b c ha hb hc = rw (split-loopback_text a b c) (
    rw (octet-decimal a ha)
      (rw (octet-decimal b hb) (rw (octet-decimal c hc) (unfold octet in refl))))

abbrev is_plain : ℕ → Bool
is_plain c = is_digit c || c == b'.'

digits-plain : (s : Bytes) → all is_digit s ≡ true → all is_plain s ≡ true
digits-plain [] h = refl
digits-plain (c ∷ s) h = ground (arith, digits-plain s)

loopback_text-plain : (a b c : ℕ) → all is_plain (loopback_text a b c) ≡ true
loopback_text-plain a b c =
    let last = b'.' ∷ decimal c in
    let rest = b'.' ∷ (decimal b ++ last) in
    all-append_split is_plain (codes "127.") (decimal a ++ rest) refl (
      all-append_split is_plain (decimal a) rest (digits-plain (decimal a) (decimal-digits a)) (
        all-append_split is_plain (decimal b) last (digits-plain (decimal b) (decimal-digits b))
          (digits-plain (decimal c) (decimal-digits c))))

to_lower-plain : (s : Bytes) → all is_plain s ≡ true → to_lower s ≡ s
unfolding to_lower lower
to_lower-plain [] h = refl
to_lower-plain (c ∷ s) h =
    let up : lower c ≡ c = ground arith in
    ap₂ (λ (x : ℕ) (y : Bytes). x ∷ y) up (to_lower-plain s (and_right (is_plain c) _ h))

all-reverse : (s : Bytes) → all is_plain s ≡ true → all is_plain (reverse s) ≡ true
all-reverse [] h = refl
all-reverse (c ∷ s) h = rw (reverse-append (c ∷ []) s) (
    all-append_split is_plain (reverse s) (c ∷ []) (all-reverse s (and_right (is_plain c) _ h))
      (ground arith))

trim_left-plain : (s : Bytes) → all is_plain s ≡ true → trim_left is_bracket s ≡ s
unfolding trim_left
trim_left-plain [] h = refl
trim_left-plain (c ∷ s) h =
    let other : is_bracket c ≡ false = ground arith in rw (other, trim_left) refl

normal_host-plain : (s : Bytes) → all is_plain s ≡ true → normal_host s ≡ s
unfolding normal_host trim
normal_host-plain s h = rw (trim_left-plain s h) (
    rw (trim_left-plain (reverse s) (all-reverse s h))
      (rw (reverse-reverse s) (to_lower-plain s h)))

plain-no_zone : (s : Bytes) → all is_plain s ≡ true → any (λ c. c == b'%') s ≡ false
plain-no_zone [] h = refl
plain-no_zone (c ∷ s) h = ground (arith, plain-no_zone s)

parse_ip-loopback :
    (a b c : ℕ)
    → a < 256
    → b < 256
    → c < 256
    → parse_ip (loopback_text a b c) ≡ some (mapped (loopback_value a b c))
unfolding parse_ip parse_addr family
parse_ip-loopback a b c ha hb hc =
    rw (plain-no_zone (loopback_text a b c) (loopback_text-plain a b c))
      (rw (parse_ipv4-loopback a b c ha hb hc) refl)

is_loopback-value :
    (a b c : ℕ) → a < 256 → b < 256 → c < 256 → is_loopback (mapped (loopback_value a b c)) ≡ true
unfolding is_loopback to4
is_loopback-value a b c ha hb hc =
    let v = loopback_value a b c in
    let high : mapped v / 2 ^ 32 ≡ 0xffff = omega arith in
    let low : mapped v % 2 ^ 32 ≡ v = omega arith in
    let first : v / 2 ^ 24 ≡ 127 = omega arith in
    rw (high, is_loopback, to4) (rw low (rw first refl))

is_self_host-loopback :
    (a b c : ℕ) → a < 256 → b < 256 → c < 256 → is_self_host (loopback_text a b c) ≡ true
unfolding is_self_host is_self_address
is_self_host-loopback a b c ha hb hc =
    rw (normal_host-plain (loopback_text a b c) (loopback_text-plain a b c))
      (rw (parse_ip-loopback a b c ha hb hc) (rw (is_loopback-value a b c ha hb hc) (ground arith)))

-- Every address `127.a.b.c` is refused as the host of a target, at any port, under any allowlist
-- and with any opt-out.
pub validate_host-loopback :
    (a b c : ℕ) (port : Bytes) (allowed : List Bytes) (external : Option Bytes)
    → a < 256
    → b < 256
    → c < 256
    → validate_host (loopback_text a b c) port allowed external ≡ err validation
unfolding validate_host
validate_host-loopback a b c port allowed external ha hb hc =
    rw (is_self_host-to_lower (loopback_text a b c))
      (rw (is_self_host-loopback a b c ha hb hc) refl)
