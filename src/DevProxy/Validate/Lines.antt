-- ===== src/DevProxy/Validate/Lines.antt =====
-- Whatever passes the validators fits on a line of the template.
use router_docker.Prelude.{
  ℕ, ◌≡◌, refl, Bool, true, false, not, ◌&&◌, ◌||◌, ◌⊎◌, inl, inr, some, List, [], ◌∷◌, ◌++◌, all,
  All, ◌==◌, is_empty, split_last, split_last-eq-some, split_last-eq-none, all_mono,
  all-append_split, arith, ok, guard, validation, guard-eq-ok, >>-eq-ok, for_each, for_each-cons,
  leb, length, and_left, and_right, Bool-cases, Option-cases,
}
use router_docker.Text.{Bytes, codes, equal, split, cut_prefix}
use router_docker.Text.Laws.{equal_iff, cut_prefix-eq-some}
use router_docker.Text.Lines.{lacks, IsLine, lacks-append}
use router_docker.DevProxy.Fragment.{Route, Expose, parse_structured, render}
use router_docker.DevProxy.Fragment.Lines.{IsRenderableRoute, IsRenderable}
use router_docker.DevProxy.Fragment.Whole.{parse_structured-render}
use router_docker.DevProxy.Validate.{
  Settings, is_label, label_rest, is_inner_byte, is_label_byte, is_dotted, is_host, is_host_byte,
  is_path_byte, validate_name, validate_host, validate_path_like, validate_target, validate_route,
  validate_expose,
}
use router_docker.TargetGuard

-- a class of bytes without the newline
module _ (p : ℕ → Bool) (no_newline : (c : ℕ) → p c ≡ true → (c == b'\n') ≡ false) where
  all-IsLine : (s : Bytes) → all p s ≡ true → IsLine s
  unfolding lacks
  all-IsLine [] h = refl
  all-IsLine (c ∷ s) h = ground (arith, no_newline c, all-IsLine s)

inner-no_newline : (c : ℕ) → is_inner_byte c ≡ true → (c == b'\n') ≡ false
inner-no_newline c h = ground arith

dotted-no_newline : (c : ℕ) → (is_host_byte c || c == b'.') ≡ true → (c == b'\n') ≡ false
dotted-no_newline c h = ground arith

path-no_newline : (c : ℕ) → is_path_byte c ≡ true → (c == b'\n') ≡ false
path-no_newline c h = ground arith

target-no_newline : (c : ℕ) → TargetGuard.is_target_byte c ≡ true → (c == b'\n') ≡ false
target-no_newline c h = ground arith

label-inner : (c : ℕ) → is_label_byte c ≡ true → is_inner_byte c ≡ true
label-inner c h = ground arith

label_rest-all :
    (inner : Bytes) (last : ℕ)
    → label_rest (some (inner, last)) ≡ true
    → all is_inner_byte (inner ++ last ∷ []) ≡ true
unfolding label_rest
label_rest-all inner last h =
    let bounded = and_left (leb (length inner) 61 && all is_inner_byte inner) _ h in
    let ends : is_inner_byte last ≡ true = label-inner last (and_right _ (is_label_byte last) h) in
    all-append_split is_inner_byte inner (last ∷ []) (and_right (leb (length inner) 61) _ bounded)
      (rw ends refl)

-- every byte of a label is a letter, a digit or a hyphen
pub is_label-all : (s : Bytes) → is_label s ≡ true → all is_inner_byte s ≡ true
unfolding is_label
is_label-all [] h = refl
is_label-all (c ∷ s) h = elim (Option-cases (split_last s)) [
  | inl e ↦ rw (split_last-eq-none s e) (rw (label-inner c (and_left _ _ h)) refl)
  | inr ((inner, last), e) ↦
      let fits = rw e at (and_right (is_label_byte c) (label_rest (split_last s)) h) in
      rw (split_last-eq-some s inner last e)
        (rw (label-inner c (and_left _ _ h)) (label_rest-all inner last fits))
]

-- pieces in a class, joined by the separator
split-all :
    (p : ℕ → Bool) (sep : ℕ) (s : Bytes)
    → all (all p) (split sep s) ≡ true
    → all (λ c. p c || c == sep) s ≡ true
unfolding split
split-all p sep [] h = refl
split-all p sep (c ∷ s) h = ground (arith, split-all p sep s)

is_dotted-IsLine : (s : Bytes) → is_dotted s ≡ true → IsLine s
unfolding is_dotted
is_dotted-IsLine s h = all-IsLine _ dotted-no_newline s (
    split-all is_host_byte b'.' s
      (all_mono _ (all is_host_byte) (split b'.' s) (λ l. and_right (not (is_empty l)) _) h))

is_host-IsLine : (s : Bytes) → is_host s ≡ true → IsLine s
unfolding is_host
is_host-IsLine s h = elim (Bool-cases (is_dotted s)) [
  | inl plain ↦ is_dotted-IsLine s plain
  | inr other ↦ elim (Option-cases (cut_prefix s (codes "*."))) [
    | inl e ↦ cc
    | inr (r, e) ↦ rw (cut_prefix-eq-some s (codes "*.") r e) (
        lacks-append b'\n' (codes "*.") r (unfold lacks in refl)
          (is_dotted-IsLine r (ground arith)))
  ]
]

pub validate_path_like-IsLine : (s : Bytes) → validate_path_like s ≡ ok tt → IsLine s
unfolding validate_path_like
validate_path_like-IsLine s h = all-IsLine _ path-no_newline s (guard-eq-ok _ _ h)

pub validate_name-IsLine : (s : Bytes) → validate_name s ≡ ok tt → IsLine s
unfolding validate_name
validate_name-IsLine s h =
    all-IsLine _ inner-no_newline s (is_label-all s (guard-eq-ok (is_label s) validation h))

validate_host-IsLine : (s : Bytes) → validate_host s ≡ ok tt → IsLine s
unfolding validate_host
validate_host-IsLine s h = is_host-IsLine s (guard-eq-ok (is_host s) validation h)

pub validate_target-IsLine : (st : Settings) (s : Bytes) → validate_target st s ≡ ok tt → IsLine s
unfolding validate_target TargetGuard.validate TargetGuard.is_target_text
validate_target-IsLine st s h = all-IsLine _ target-no_newline s (
    and_right (not (is_empty s)) _ (
      guard-eq-ok (TargetGuard.is_target_text s) validation
        (>>-eq-ok (guard (TargetGuard.is_target_text s) validation) _ h).0))

mode-cases :
    (m : Bytes)
    → (equal m (codes "route") || equal m (codes "handle")) ≡ true
    → (m ≡ codes "route") ⊎ (m ≡ codes "handle")
mode-cases m h = ground (arith, equal_iff m (codes "route"), equal_iff m (codes "handle"))

validate_route-IsRenderableRoute :
    (st : Settings) (rt : Route) → validate_route st rt ≡ ok tt → IsRenderableRoute rt
unfolding validate_route
validate_route-IsRenderableRoute st rt h =
    let (path, h1) = >>-eq-ok (validate_path_like rt.path) _ h in
    let (target, h2) = >>-eq-ok (validate_target st rt.target) _ h1 in
    let (strip, h3) = >>-eq-ok (validate_path_like rt.strip_prefix) _ h2 in
    let (rewrite, mode) = >>-eq-ok (validate_path_like rt.rewrite_prefix) _ h3 in
    record {
      path_line = validate_path_like-IsLine rt.path path;
      target_line = validate_target-IsLine st rt.target target;
      strip_line = validate_path_like-IsLine rt.strip_prefix strip;
      rewrite_line = validate_path_like-IsLine rt.rewrite_prefix rewrite;
      known_mode = mode-cases rt.mode (guard-eq-ok _ _ mode);
    }

routes-IsRenderableRoute :
    (st : Settings) (rts : List Route)
    → for_each (validate_route st) rts ≡ ok tt
    → All IsRenderableRoute rts
routes-IsRenderableRoute st [] h = tt
routes-IsRenderableRoute st (rt ∷ rts) h =
    let (first, rest) = for_each-cons (validate_route st) rt rts h in
    (validate_route-IsRenderableRoute st rt first, routes-IsRenderableRoute st rts rest)

pub validate_expose-IsRenderable :
    (st : Settings) (e : Expose) → validate_expose st e ≡ ok tt → IsRenderable e
unfolding validate_expose
validate_expose-IsRenderable st e h =
    let (name, h1) = >>-eq-ok (validate_name e.name) _ h in
    let (host, routes) = >>-eq-ok (validate_host e.host) _ h1 in
    record {
      name_line = validate_name-IsLine e.name name;
      host_line = validate_host-IsLine e.host host;
      each_route = routes-IsRenderableRoute st e.routes routes;
    }

-- An expose that `validateExpose` accepts, under any settings of the environment, is recovered
-- exactly by `parseStructured` from the fragment that `Render` writes for it.
pub parse_structured-render_of_valid :
    (st : Settings) (e : Expose)
    → validate_expose st e ≡ ok tt
    → parse_structured e.name (render e) ≡ some e
parse_structured-render_of_valid st e h =
    parse_structured-render e (validate_expose-IsRenderable st e h)
