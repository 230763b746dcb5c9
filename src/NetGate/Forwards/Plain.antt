-- ===== src/NetGate/Forwards/Plain.antt =====
-- The bytes of a plain host.
use router_docker.Prelude.{
  ℕ, ◌≡◌, refl, sym, inl, inr, Bool, true, false, ◌||◌, some, [], ◌∷◌, ◌++◌, ◌==◌, all, split_last,
  split_last-eq-none, split_last-eq-some, is_empty, subst, Option-cases, all-append_split, and_left,
  and_right,
}
use router_docker.Text.{Bytes, is_alnum}
use router_docker.NetGate.Forwards.{is_middle_byte, host_rest, is_plain_host}

or_left : (a b : Bool) → a ≡ true → (a || b) ≡ true
or_left true b h = refl
or_left false b h = cc

alnum-middle : (c : ℕ) → is_alnum c ≡ true → is_middle_byte c ≡ true
alnum-middle c h =
    or_left (is_alnum c || c == b'.') (c == b'-') (or_left (is_alnum c) (c == b'.') h)

closed :
    (init : Bytes) (last : ℕ)
    → host_rest (some (init, last)) ≡ true
    → all is_middle_byte (init ++ last ∷ []) ≡ true
unfolding host_rest
closed init last k =
    let byte : is_middle_byte last ≡ true = alnum-middle last (and_right _ (is_alnum last) k) in
    let end : all is_middle_byte (last ∷ []) ≡ true = rw byte refl in
    all-append_split is_middle_byte init (last ∷ []) (and_left _ _ k) end

rest-middle : (s : Bytes) → host_rest (split_last s) ≡ true → all is_middle_byte s ≡ true
rest-middle s h = elim (Option-cases (split_last s)) [
  | inl e ↦ subst (λ x. all is_middle_byte x ≡ true) (sym (split_last-eq-none s e)) refl
  | inr ((init, last), e) ↦
      let k : host_rest (some (init, last)) ≡ true = subst (λ o. host_rest o ≡ true) e h in
      subst (λ x. all is_middle_byte x ≡ true) (sym (split_last-eq-some s init last e))
        (closed init last k)
]

-- A plain host is not empty, and holds letters, digits, dots and hyphens.
pub is_plain_host-bytes :
    (h : Bytes) → is_plain_host h ≡ true → (is_empty h ≡ false) × (all is_middle_byte h ≡ true)
unfolding is_plain_host
is_plain_host-bytes [] p = absurd (cc)
is_plain_host-bytes (c ∷ s) p =
    let rest = rest-middle s (and_right (is_alnum c) _ p) in
    let first : is_middle_byte c ≡ true = alnum-middle c (and_left _ _ p) in (refl, (rw first rest))
