-- ===== src/Net/Address/Characters.antt =====
-- An address holds no byte but digits, dots, colons and the letters of hex digits.
use mathlib.Core.Option
use mathlib.Core.Option.{some-injective}
use router_docker.Prelude.Maybe.{◌>>=◌, ◌>>◌, check, >>=-eq-some, check-eq-some}
use router_docker.Prelude.{
  ℕ, zero, suc, ◌+◌, ◌-◌, ◌*◌, ◌≡◌, refl, sym, ap, inl, inr, Bool, true, false, not, ◌&&◌, ◌||◌,
  Option, none, some, List, [], ◌∷◌, ◌==◌, All, arith, subst, and_left, and_right, leb, ltb,
  if◌then◌else◌, is_empty, any, Bool-cases, Option-cases,
}
use router_docker.Text.{Bytes, split, cons_head, is_digit, within, is_some}
use router_docker.Text.Lines.{lacks}
use router_docker.Net.Address.{
  Groups, octet_from, octet, quad_of, parse_ipv4, hex_digit, hex_field, embed_ipv4, add_group,
  starts_with_dot, after_colon, after_number, parse_group, parse_groups, start_groups, expand,
  mapped, family, parse_ipv6_from, parse_ipv6, parse_addr, parse_ip,
}

-- no byte of an address
abbrev pub is_foreign : ℕ → Bool
is_foreign c =
    not (is_digit c)
    && not (within b'a' b'f' c)
    && not (within b'A' b'F' c)
    && not (c == b'.')
    && not (c == b':')

not_true : false ≡ true → ⊥
not_true h = cc

no_value : {A : Type 0} {a : A} → none ≡ some a → ⊥
no_value h = cc

first_byte : Bytes → Option ℕ
first_byte [] = none
first_byte (c ∷ s) = some c

not_empty : (s : Bytes) (d : ℕ) → first_byte s ≡ some d → is_empty s ≡ false
unfolding first_byte
not_empty [] d e = cc
not_empty (c ∷ s) d e = refl

and_false : (b : Bool) → (b && false) ≡ false
and_false true = refl
and_false false = refl

was_mapped :
    {A B : Type 0} (g : A → B) (o : Option A) {b : B}
    → Option.map g o ≡ some b
    → (a : A) × (o ≡ some a)
was_mapped g none e = cc
was_mapped g (some a) e = (a, refl)

module _ (sep : ℕ) (f : is_foreign sep ≡ true) where
  octet_from-lacks :
      (acc v : ℕ) (started : Bool) (s : Bytes)
      → octet_from acc started s ≡ some v
      → lacks sep s ≡ true
  unfolding octet_from lacks
  octet_from-lacks acc v started [] h = refl
  octet_from-lacks acc v started (c ∷ s) h =
      ground (arith, octet_from-lacks (acc * 10 + (c - b'0')) v true s, f, h)

  octet-lacks : (v : ℕ) (s : Bytes) → octet s ≡ some v → lacks sep s ≡ true
  unfolding octet
  octet-lacks v s h = octet_from-lacks 0 v false s h

  cons_head-lacks :
      (c : ℕ) (ls : List Bytes)
      → All (λ l. lacks sep l ≡ true) (cons_head c ls)
      → ((c == sep) ≡ false) × All (λ l. lacks sep l ≡ true) ls
  unfolding lacks
  cons_head-lacks c [] a = (ground (arith, a.0), tt)
  cons_head-lacks c (l ∷ ls) a = (ground (arith, a.0), (ground (arith, a.0), a.1))

  parts_lack :
      (dot : ℕ) (s : Bytes)
      → (dot == sep) ≡ false
      → All (λ l. lacks sep l ≡ true) (split dot s)
      → lacks sep s ≡ true
  unfolding split lacks
  parts_lack dot [] n a = refl
  parts_lack dot (c ∷ s) n a = split_case (c == dot) refl a (λ k. parts_lack dot s n k)
    where
      split_case :
          (b : Bool)
          → (c == dot) ≡ b
          → All
              (λ l. lacks sep l ≡ true)
              (if b then [] ∷ split dot s else cons_head c (split dot s))
          → (All (λ l. lacks sep l ≡ true) (split dot s) → lacks sep s ≡ true)
          → lacks sep (c ∷ s) ≡ true
      split_case true e k more = ground (arith, e, n, more k.1)
      split_case false e k more =
          let (other, rest) = cons_head-lacks c (split dot s) k in ground (arith, other, more rest)

  hex_digit-foreign : (c d : ℕ) → hex_digit c ≡ some d → (c == sep) ≡ false
  unfolding hex_digit
  hex_digit-foreign c d h = ground (arith, f, h)

  hex_field-lacks :
      (s : Bytes) (acc n : ℕ) → lacks sep (hex_field s acc n).2 ≡ true → lacks sep s ≡ true
  unfolding hex_field lacks
  hex_field-lacks [] acc n h = refl
  hex_field-lacks (c ∷ s) acc n h =
      hex_case (hex_digit c) refl h (λ d k. hex_field-lacks s (acc * 16 + d) (n + 1) k)
    where
      hex_case :
          (o : Option ℕ)
          → hex_digit c ≡ o
          → lacks sep
              (elim o as (λ _. ℕ × ℕ × Bytes) [
                | none ↦ (acc, n, c ∷ s)
                | some d ↦ hex_field s (acc * 16 + d) (n + 1)
              ]).2
            ≡ true
          → ((d : ℕ) → lacks sep (hex_field s (acc * 16 + d) (n + 1)).2 ≡ true → lacks sep s ≡ true)
          → lacks sep (c ∷ s) ≡ true
      hex_case none e k more = k
      hex_case (some d) e k more = ground (arith, hex_digit-foreign c d e, more d k)

  quad_of-lacks : (v : ℕ) (ls : List Bytes) → quad_of ls ≡ some v → All (λ l. lacks sep l ≡ true) ls
  unfolding quad_of
  quad_of-lacks v (a ∷ b ∷ c ∷ d ∷ []) h =
      let (i, hi, h1) = >>=-eq-some (octet a) _ h in
      let (j, hj, h2) = >>=-eq-some (octet b) _ h1 in
      let (k, hk, h3) = >>=-eq-some (octet c) _ h2 in
      let (l, hl, h4) = >>=-eq-some (octet d) _ h3 in
      (octet-lacks i a hi, (octet-lacks j b hj, (octet-lacks k c hk, (octet-lacks l d hl, tt))))
  quad_of-lacks v [] h = cc
  quad_of-lacks v (a ∷ []) h = cc
  quad_of-lacks v (a ∷ b ∷ []) h = cc
  quad_of-lacks v (a ∷ b ∷ c ∷ []) h = cc
  quad_of-lacks v (a ∷ b ∷ c ∷ d ∷ e ∷ ls) h = cc

  parse_ipv4-lacks : (v : ℕ) (s : Bytes) → parse_ipv4 s ≡ some v → lacks sep s ≡ true
  unfolding parse_ipv4
  parse_ipv4-lacks v s h = parts_lack b'.' s (ground (arith, f)) (quad_of-lacks v (split b'.' s) h)

  -- what is left of a text holds the byte if the text does
  Passes : (Bytes → Groups → Option (Groups × Bytes)) → Type 0
  Passes next =
      (s r : Bytes) (g h : Groups)
      → next s g ≡ some (h, r)
      → lacks sep r ≡ true
      → lacks sep s ≡ true

  embed_ipv4-Passes : Passes embed_ipv4
  unfolding Passes embed_ipv4
  embed_ipv4-Passes s r g h e l =
      let (_, e1) = check-eq-some (is_some g.ellipsis || g.count == 6) _ e in
      let (_, e2) = check-eq-some (leb g.count 6) _ e1 in
      let (v, found, e3) = >>=-eq-some (parse_ipv4 s) _ e2 in parse_ipv4-lacks v s found

  colon_lacks :
      (c : ℕ) (s : Bytes) → (c == b':') ≡ true → lacks sep s ≡ true → lacks sep (c ∷ s) ≡ true
  unfolding lacks
  colon_lacks c s e l = ground (arith, f, e, l)

  lacks_nothing : (s : Bytes) → first_byte s ≡ none → lacks sep s ≡ true
  unfolding lacks first_byte
  lacks_nothing [] e = refl
  lacks_nothing (c ∷ s) e = cc

  lacks_empty : (s : Bytes) → is_empty s ≡ true → lacks sep s ≡ true
  unfolding lacks
  lacks_empty [] e = refl
  lacks_empty (c ∷ s) e = cc

  after_colon-Passes :
      (next : Bytes → Groups → Option (Groups × Bytes)) → Passes next → Passes (after_colon next)
  unfolding Passes after_colon lacks
  after_colon-Passes next p [] r g h e l = refl
  after_colon-Passes next p (c ∷ s) r g h e l = elim (Bool-cases (c == b':')) [
    | inr other ↦ p (c ∷ s) r g h (simp other at e) l
    | inl colon ↦ elim (Bool-cases (is_some g.ellipsis)) [
      | inl twice ↦ absurd (no_value (simp (colon, twice) at e))
      | inr once ↦ colon_lacks c s colon (elim (Option-cases (first_byte s)) [
        | inl none_left ↦ lacks_nothing s none_left
        | inr (d, more) ↦
            p s r (record g { ellipsis = some g.count }) h
              (simp (colon, once, not_empty s d more) at e) l
      ])
    ]
  ]

  after_number-Passes :
      (next : Bytes → Groups → Option (Groups × Bytes)) (v : ℕ)
      → Passes next
      → Passes (after_number next v)
  unfolding Passes after_number lacks
  after_number-Passes next v p [] r g h e l = refl
  after_number-Passes next v p (c ∷ s) r g h e l = elim (Bool-cases (c == b':')) [
    | inr other ↦ absurd (no_value (simp other at e))
    | inl colon ↦
        colon_lacks c s colon (after_colon-Passes next p s r (add_group v g) h (simp colon at e) l)
  ]

  parse_group-Passes :
      (next : Bytes → Groups → Option (Groups × Bytes)) → Passes next → Passes (parse_group next)
  unfolding Passes parse_group
  parse_group-Passes next p s r g h e l =
      let field = hex_field s 0 0 in
      elim (Bool-cases (field.1 == 0 || ltb 4 field.1)) [
        | inl bad ↦ absurd (no_value (simp bad at e))
        | inr good ↦ elim (Bool-cases (starts_with_dot field.2)) [
          | inl dot ↦ embed_ipv4-Passes s r g h (simp (good, dot) at e) l
          | inr plain ↦
              hex_field-lacks s 0 0
                (after_number-Passes next field.0 p field.2 r g h (simp (good, plain) at e) l)
        ]
      ]

  parse_groups-Passes : (room : ℕ) → Passes (parse_groups room)
  unfolding Passes parse_groups
  parse_groups-Passes zero s r g h e l =
      subst (λ x. lacks sep x ≡ true) (sym (ap (λ p. p.1) (some-injective _ _ e))) l
  parse_groups-Passes (suc room) s r g h e l =
      parse_group-Passes (λ t k. parse_groups room t k) (parse_groups-Passes room) s r g h e l

  parse_ipv6_from-lacks :
      (v : ℕ) (g : Groups) (s : Bytes) → parse_ipv6_from (g, s) ≡ some v → lacks sep s ≡ true
  unfolding parse_ipv6_from Passes
  parse_ipv6_from-lacks v g s e = elim (Option-cases (first_byte s)) [
    | inl none_left ↦ lacks_nothing s none_left
    | inr (d, more) ↦
        let e' : (do found ← parse_groups 8 s g; check (is_empty found.1); expand found.0)
            ≡ some v =
          simp (not_empty s d more, and_false (is_some g.ellipsis)) at e in
        let ((h, r), found, e1) = >>=-eq-some (parse_groups 8 s g) _ e' in
        let (nothing, e2) = check-eq-some (is_empty r) _ e1 in
        parse_groups-Passes 8 s r g h found (lacks_empty r nothing)
  ]

  start_groups-lacks : (s : Bytes) → lacks sep (start_groups s).1 ≡ true → lacks sep s ≡ true
  unfolding start_groups
  start_groups-lacks [] l = l
  start_groups-lacks (c ∷ []) l = l
  start_groups-lacks (c ∷ d ∷ s) l = elim (Bool-cases (c == b':' && d == b':')) [
    | inl both ↦
        colon_lacks c (d ∷ s) (and_left _ _ both)
          (colon_lacks d s (and_right (c == b':') _ both) (simp both at l))
    | inr other ↦ simp other at l
  ]

  parse_ipv6-lacks : (v : ℕ) (s : Bytes) → parse_ipv6 s ≡ some v → lacks sep s ≡ true
  unfolding parse_ipv6
  parse_ipv6-lacks v s e =
      start_groups-lacks s (parse_ipv6_from-lacks v (start_groups s).0 (start_groups s).1 e)

  parse_addr-lacks : (a : ℕ × ℕ) (s : Bytes) → parse_addr s ≡ some a → lacks sep s ≡ true
  unfolding parse_addr
  parse_addr-lacks a s e =
      let (_, e1) = check-eq-some (not (any (λ c. c == b'%') s)) _ e in
      let (k, _, e2) = >>=-eq-some (family s) _ e1 in
      elim (Bool-cases (k == b'.')) [
        | inl four ↦
            let (v, found) = was_mapped (λ v. (mapped v, 32)) (parse_ipv4 s) (simp four at e2) in
            parse_ipv4-lacks v s found
        | inr six ↦
            let (v, found) = was_mapped (λ v. (v, 128)) (parse_ipv6 s) (simp six at e2) in
            parse_ipv6-lacks v s found
      ]

  -- What `net.ParseIP` accepts holds no other byte.
  pub parse_ip-lacks : (s : Bytes) → is_some (parse_ip s) ≡ true → lacks sep s ≡ true
  unfolding parse_ip
  parse_ip-lacks s e = elim (Option-cases (parse_addr s)) [
    | inl missing ↦ absurd (not_true (simp missing at e))
    | inr (a, found) ↦ parse_addr-lacks a s found
  ]
