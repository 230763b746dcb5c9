-- ===== src/TargetGuard/Safety.antt =====
-- No accepted target reaches the router itself or the Docker API.
use mathlib.Core.List.{reverse-append}
use router_docker.Prelude.{
  ℕ, ◌≡◌, refl, sym, ap, ap₂, ◌∙◌, ◌⊎◌, inl, inr, Bool, true, false, not, ◌||◌, Option, List, [],
  ◌∷◌, ◌++◌, reverse, arith, ◌==◌, ok, validation, guard, >>-eq-ok, guard-eq-ok, Bool-cases,
}
use router_docker.Text.{Bytes, contains, lower, to_lower, trim, trim_left}
use router_docker.TargetGuard.{
  is_bracket, normal_host, is_self_host, is_denied, opts_out, validate_host, target_parts,
  is_target_text, validate,
}

lower-lower : (c : ℕ) → lower (lower c) ≡ lower c
unfolding lower
lower-lower c = ground arith

lower-bracket : (c : ℕ) → (lower c == b'[' || lower c == b']') ≡ (c == b'[' || c == b']')
unfolding lower
lower-bracket c = ground arith

to_lower-to_lower : (s : Bytes) → to_lower (to_lower s) ≡ to_lower s
unfolding to_lower
to_lower-to_lower [] = refl
to_lower-to_lower (c ∷ s) = ap₂ (λ (x : ℕ) (y : Bytes). x ∷ y) (lower-lower c) (to_lower-to_lower s)

map_append : (a b : Bytes) → to_lower (a ++ b) ≡ to_lower a ++ to_lower b
unfolding to_lower
map_append [] b = refl
map_append (c ∷ a) b = ap (λ (x : Bytes). lower c ∷ x) (map_append a b)

reverse-to_lower : (s : Bytes) → reverse (to_lower s) ≡ to_lower (reverse s)
unfolding to_lower
reverse-to_lower [] = refl
reverse-to_lower (c ∷ s) =
    reverse-append (lower c ∷ []) (to_lower s)
    ∙ ap (λ (x : Bytes). x ++ lower c ∷ []) (reverse-to_lower s)
    ∙ sym (map_append (reverse s) (c ∷ []))
    ∙ ap to_lower (sym (reverse-append (c ∷ []) s))

of_not : {b : Bool} → not b ≡ true → b ≡ false
of_not {b} h = ground arith

of_or : {a b : Bool} → (a || b) ≡ true → (a ≡ true) ⊎ (b ≡ true)
of_or {a} {b} h = ground arith

module _ (p : ℕ → Bool) (same : (c : ℕ) → p (lower c) ≡ p c) where
  trim_left-to_lower : (s : Bytes) → trim_left p (to_lower s) ≡ to_lower (trim_left p s)
  unfolding trim_left to_lower
  trim_left-to_lower [] = refl
  trim_left-to_lower (c ∷ s) = elim (Bool-cases (p c)) [
    | inl e ↦ rw (same c) (rw (e, trim_left) (trim_left-to_lower s))
    | inr e ↦ rw (same c) (rw (e, trim_left) refl)
  ]

  trim-to_lower : (s : Bytes) → trim p (to_lower s) ≡ to_lower (trim p s)
  unfolding trim
  trim-to_lower s = rw (trim_left-to_lower s) (
      rw (reverse-to_lower (trim_left p s)) (
        rw (trim_left-to_lower (reverse (trim_left p s)))
          (reverse-to_lower (trim_left p (reverse (trim_left p s))))))

normal_host-to_lower : (h : Bytes) → normal_host (to_lower h) ≡ normal_host h
unfolding normal_host
normal_host-to_lower h =
    ap to_lower (trim-to_lower is_bracket lower-bracket h) ∙ to_lower-to_lower (trim is_bracket h)

pub is_self_host-to_lower : (h : Bytes) → is_self_host (to_lower h) ≡ is_self_host h
unfolding is_self_host
is_self_host-to_lower h = rw (normal_host-to_lower h) refl

-- A target that is accepted, under any allowlist and any opt-out, is not a name or an address of
-- the router itself, in any case and with or without brackets, nor a Docker API port of `dind`;
-- and unless the feature is opted out of the allowlist, its host in lower case is on the list.
pub validate-safe :
    (target : Bytes) (allowed : List Bytes) (external : Option Bytes)
    → validate target allowed external ≡ ok tt
    → (let (host, port) = target_parts target in
        (is_self_host host ≡ false)
        × (is_denied (to_lower host) port ≡ false)
        × ((opts_out external ≡ true) ⊎ (contains allowed (to_lower host) ≡ true)))
unfolding validate validate_host
validate-safe target allowed external h =
    let (host, port) = target_parts target in
    let (text, h0) = >>-eq-ok (guard (is_target_text target) validation) _ h in
    let (own, h1) = >>-eq-ok (guard (not (is_self_host (to_lower host))) validation) _ h0 in
    let (denied, listed) =
      >>-eq-ok (guard (not (is_denied (to_lower host) port)) validation) _ h1 in
    (
      sym (is_self_host-to_lower host) ∙ of_not (guard-eq-ok _ validation own),
      of_not (guard-eq-ok _ validation denied),
      of_or (guard-eq-ok (opts_out external || contains allowed (to_lower host)) validation listed),
    )
