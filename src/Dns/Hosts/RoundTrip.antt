-- ===== src/Dns/Hosts/RoundTrip.antt =====
-- The hosts that a rendered file was made of are read back from it.
use mathlib.Core.List.{reverse-append, reverse-reverse, append-nil, append_assoc}
use router_docker.Prelude.{
  ℕ, ◌≡◌, refl, sym, ap, ◌∙◌, inl, inr, Bool, true, false, not, ◌&&◌, List, [], ◌∷◌, ◌++◌, reverse,
  all, split_last, split_last-eq-none, split_last-eq-some, is_empty, ◌==◌, All, subst, arith,
  Option-cases, all_mono, not-eq-true, and_left, and_right,
}
use router_docker.Text.{Bytes, codes, is_space, lower, to_lower, trim_left, trim, trim_space, split}
use router_docker.Text.Lines.{lacks, split-lacks}
use router_docker.NetGate.Forwards.{is_middle_byte, is_plain_host}
use router_docker.NetGate.Forwards.Plain.{is_plain_host-bytes}
use router_docker.Dns.Hosts.{
  render_hosts_file, fields_from, push_word, host_line, host_field, hosts_of, parse_hosts_list,
}

-- a word of a line
abbrev is_word_byte : ℕ → Bool
is_word_byte c = not (is_space c) && not (c == b'\n')

unfoldable pub is_word : Bytes → Bool
is_word h = not (is_empty h) && all is_word_byte h

word_byte : (c : ℕ) → is_word_byte c ≡ true → is_space c ≡ false
word_byte c h = not-eq-true (is_space c) (and_left _ _ h)

fields_from-byte :
    (w : Bytes) (c : ℕ) (s : Bytes)
    → is_space c ≡ false
    → fields_from w (c ∷ s) ≡ fields_from (w ++ c ∷ []) s
unfolding fields_from
fields_from-byte w c s e = byte_case (is_space c) e
  where
    byte_case :
        (x : Bool)
        → x ≡ false
        → elim x as (λ _. List Bytes) [
          | true ↦ push_word w (fields_from [] s)
          | false ↦ fields_from (w ++ c ∷ []) s
        ]
          ≡ fields_from (w ++ c ∷ []) s
    byte_case true h = cc
    byte_case false h = refl

fields_from-word :
    (w h : Bytes) → all is_word_byte h ≡ true → fields_from w h ≡ push_word (w ++ h) []
fields_from-word w [] a = unfold fields_from in rw (append-nil w) refl
fields_from-word w (c ∷ h) a =
    fields_from-byte w c h (word_byte c (and_left _ _ a))
    ∙ fields_from-word (w ++ c ∷ []) h (and_right (is_word_byte c) _ a)
    ∙ ap (λ v. push_word v []) (append_assoc w (c ∷ []) h)

word_bytes : (h : Bytes) → is_word h ≡ true → all is_word_byte h ≡ true
unfolding is_word
word_bytes h w = and_right (not (is_empty h)) _ w

trim_left-word : (c : ℕ) (s : Bytes) → is_space c ≡ false → trim_left is_space (c ∷ s) ≡ c ∷ s
unfolding trim_left
trim_left-word c s e = byte_case (is_space c) e
  where
    byte_case :
        (x : Bool)
        → x ≡ false
        → elim x as (λ _. Bytes) [ true ↦ trim_left is_space s | false ↦ c ∷ s ] ≡ c ∷ s
    byte_case true h = cc
    byte_case false h = refl

-- A line between two bytes that are no white space is trimmed to itself.
trim_space-closed :
    (c : ℕ) (s : Bytes) (last : ℕ)
    → is_space c ≡ false
    → is_space last ≡ false
    → trim_space (c ∷ (s ++ last ∷ [])) ≡ c ∷ (s ++ last ∷ [])
unfolding trim_space trim
trim_space-closed c s last hc hl =
    ap (λ x. reverse (trim_left is_space (reverse x))) (trim_left-word c (s ++ last ∷ []) hc)
    ∙ ap (λ x. reverse (trim_left is_space x)) (reverse-append (c ∷ s) (last ∷ []))
    ∙ ap reverse (trim_left-word last (reverse (c ∷ s)) hl)
    ∙ ap reverse (sym (reverse-append (c ∷ s) (last ∷ [])))
    ∙ reverse-reverse (c ∷ (s ++ last ∷ []))

abbrev address : Bytes
address = codes "0.0.0.0 "

all_last : (p : ℕ → Bool) (xs : Bytes) (z : ℕ) → all p (xs ++ z ∷ []) ≡ true → p z ≡ true
all_last p [] z h = and_left _ _ h
all_last p (x ∷ xs) z h = all_last p xs z (and_right (p x) _ h)

no_word : (h : Bytes) → h ≡ [] → is_word h ≡ true → ⊥
unfolding is_word
no_word [] e w = cc
no_word (c ∷ h) e w = cc

-- a word is closed by its last byte
trim_space-line : (h : Bytes) → is_word h ≡ true → trim_space (address ++ h) ≡ address ++ h
trim_space-line h w = elim (Option-cases (split_last h)) [
  | inl e ↦ absurd (no_word h (split_last-eq-none h e) w)
  | inr ((init, last), e) ↦
      let q : h ≡ init ++ last ∷ [] = split_last-eq-some h init last e in
      let bytes : all is_word_byte (init ++ last ∷ []) ≡ true =
        subst (λ x. all is_word_byte x ≡ true) q (word_bytes h w) in
      subst (λ x. trim_space (address ++ x) ≡ address ++ x) (sym q)
        (trim_space-closed b'0' (codes ".0.0.0 " ++ init) last refl
          (word_byte last (all_last is_word_byte init last bytes)))
]

fields_from-line : (h : Bytes) → fields_from [] (address ++ h) ≡ codes "0.0.0.0" ∷ fields_from [] h
unfolding fields_from
fields_from-line h = refl

word_fields : (h : Bytes) → is_word h ≡ true → fields_from [] h ≡ h ∷ []
word_fields [] w = absurd (no_word [] refl w)
word_fields (c ∷ h) w = fields_from-word [] (c ∷ h) (word_bytes (c ∷ h) w)

host_line-line :
    (h : Bytes) (hs : List Bytes) → is_word h ≡ true → host_line (address ++ h) hs ≡ h ∷ hs
unfolding host_line
host_line-line h hs w =
    ap (λ f. host_field f hs) (fields_from-line h ∙ ap (λ f. codes "0.0.0.0" ∷ f) (word_fields h w))

hosts_of-line :
    (h : Bytes) (ls : List Bytes)
    → is_word h ≡ true
    → hosts_of ((address ++ h) ∷ ls) ≡ h ∷ hosts_of ls
unfolding hosts_of
hosts_of-line h ls w =
    ap (λ l. host_line l (hosts_of ls)) (trim_space-line h w) ∙ host_line-line h (hosts_of ls) w

line_lacks : (h : Bytes) → is_word h ≡ true → lacks b'\n' (address ++ h) ≡ true
unfolding lacks
line_lacks h w =
    all_mono is_word_byte (λ c. not (c == b'\n')) h (λ c k. and_right (not (is_space c)) _ k)
      (word_bytes h w)

-- The hosts of a rendered file are read back, where each is one word of a line.
pub parse_hosts_list-render_hosts_file :
    (hs : List Bytes)
    → All (λ h. is_word h ≡ true) hs
    → parse_hosts_list (render_hosts_file hs) ≡ hs
unfolding parse_hosts_list render_hosts_file
parse_hosts_list-render_hosts_file [] a =
    unfold split in
    unfold hosts_of in
    unfold trim_space in unfold trim in unfold trim_left in unfold host_line in refl
parse_hosts_list-render_hosts_file (h ∷ hs) a =
    ap hosts_of (split-lacks b'\n' (address ++ h) (render_hosts_file hs) (line_lacks h a.0))
    ∙ hosts_of-line h (split b'\n' (render_hosts_file hs)) a.0
    ∙ ap (λ r. h ∷ r) (parse_hosts_list-render_hosts_file hs a.1)

middle-word : (c : ℕ) → is_middle_byte c ≡ true → is_word_byte (lower c) ≡ true
unfolding lower
middle-word c h = ground arith

all_lower : (h : Bytes) → all is_middle_byte h ≡ true → all is_word_byte (to_lower h) ≡ true
unfolding to_lower
all_lower [] a = refl
all_lower (c ∷ h) a =
    rw (middle-word c (and_left _ _ a)) (all_lower h (and_right (is_middle_byte c) _ a))

not_empty_lower : (h : Bytes) → is_empty h ≡ false → is_empty (to_lower h) ≡ false
unfolding to_lower
not_empty_lower [] e = cc
not_empty_lower (c ∷ h) e = refl

-- A plain host in lower case is a word.
pub is_word-to_lower : (h : Bytes) → is_plain_host h ≡ true → is_word (to_lower h) ≡ true
unfolding is_word
is_word-to_lower h p =
    let (some_byte, bytes) = is_plain_host-bytes h p in
    rw (not_empty_lower h some_byte, all_lower h bytes) refl
