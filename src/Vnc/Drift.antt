-- ===== src/Vnc/Drift.antt =====
-- What `List` says of the App Routes behind the targets.
use router_docker.Prelude.{
  ◌≡◌, refl, ap, ◌∙◌, ◌⊎◌, inl, inr, Bool, true, false, not, ◌&&◌, ◌||◌, some, List, [], ◌∷◌, map,
  All, Error, Result, ok, err, Bool-cases, >>-eq-ok, guard, validation, reload_failed, ◌≢◌,
  Result-cases, IsPlain-not_reload, is_empty, leb, length, any, ◌++◌, All-append, arith,
  target_exists,
}
use router_docker.Text.{Bytes, equal, contains, is_some}
use router_docker.Text.Laws.{equal_refl}
use router_docker.Document
use router_docker.Document.{Codec}
use router_docker.Fragments.{System}
use router_docker.Fragments.Files.{Dir, lookup, put, lookup-put}
use router_docker.Fragments.Listing.Laws.{find-sorted}
use router_docker.Fragments.Listing.{Info, fragment_names, read_info, list_fragments}
use router_docker.DevProxy.Validate.{Settings, validate_name}
use router_docker.AppRoutes.Fragment.{App, render, parse_structured}
use router_docker.AppRoutes.Validate.{validate_app, parse_structured-render_of_valid_app}
use router_docker.AppRoutes.Store as AppRoutes
use router_docker.Vnc.Target.{
  Target, name_of, uses_app_route, validate, backend_named, resize_modes, is_control,
}
use router_docker.Vnc.Atomic.{validate-IsPlain_vnc, routed, create-atomic_vnc}
use router_docker.Fragments.Laws.{IsReliable}
use mathlib.Core.Option.{some-injective}
use router_docker.Keyed.{has, find}
use router_docker.Keyed.Order.{sort, has-sort, All-sort}
use router_docker.Keyed.Laws.{has-append}
use router_docker.Document.Laws as Reliable
use router_docker.Vnc.Store.{
  Files, same_flag, TargetInfo, create, app, compared, route_state, info_of, listed, load, list,
}

same_self : (b : Bool) → same_flag b b ≡ true
same_self true = refl
same_self false = refl

compared_self :
    (t : Target) (raw : Bytes)
    → compared t (some (record { name = t.name; raw = raw; structured = some (app t) }))
      ≡ (false, false)
unfolding app
compared_self t raw = rw (equal_refl t.target, same_self t.require_auth) refl

validate_app_of :
    (st : Settings) (t : Target) → validate st t ≡ ok tt → validate_app st (app t) ≡ ok tt
unfolding validate validate_app app
validate_app_of st t h =
    let (name, h1) = >>-eq-ok (validate_name t.name) _ h in
    let (_, h2) = >>-eq-ok (guard (is_some (backend_named t.backend)) validation) _ h1 in
    let (_, h3) =
      >>-eq-ok (guard (contains resize_modes t.resize_mode || is_empty t.resize_mode) validation) _
        h2 in
    let (_, h4) =
      >>-eq-ok (guard (not (t.require_auth && not (uses_app_route t))) validation) _ h3 in
    let (_, h5) = >>-eq-ok (guard (leb (length t.label) 200) validation) _ h4 in
    let (_, target) = >>-eq-ok (guard (not (any is_control t.label)) validation) _ h5 in
    simp name target

not_done :
    (x : Error) (r : Result (Unit {0}))
    → r ≡ err x
    → x ≢ reload_failed
    → (r ≡ ok tt) ⊎ (r ≡ err reload_failed)
    → ⊥
not_done x r e k (inl h) = cc
not_done x r e k (inr h) = k (cc)

created_valid :
    {C : Type 0} (b : Codec (List Target) C) (sys : System) (st : Settings) (t : Target)
    (w : Files C)
    → ((create b sys st t w).0 ≡ ok tt) ⊎ ((create b sys st t w).0 ≡ err reload_failed)
    → validate st t ≡ ok tt
unfolding create
created_valid b sys st t w done = elim (Result-cases (validate st t)) [
  | inl c ↦ c
  | inr (x, c) ↦ absurd (
      not_done x (create b sys st t w).0 (simp c refl)
        (λ e. IsPlain-not_reload (validate st t) (validate-IsPlain_vnc st t) (c ∙ ap err e)) done)
]

-- without a listing
stored_of : (ts : List Target) → map (λ i. i.stored) (map (info_of []) ts) ≡ ts
unfolding info_of
stored_of [] = refl
stored_of (t ∷ ts) = ap (λ r. t ∷ r) (stored_of ts)

unlisted_one :
    (t : Target)
    → (let i = info_of [] t in
        (i.route_missing ≡ uses_app_route i.stored) × (i.route_diverged ≡ false))
unfolding info_of route_state
unlisted_one t = elim (Bool-cases (uses_app_route t)) [
  | inl carried ↦ simp carried (refl, refl)
  | inr own ↦ simp own (refl, refl)
]

unlisted :
    (ts : List Target)
    → All
        (λ i. (i.route_missing ≡ uses_app_route i.stored) × (i.route_diverged ≡ false))
        (map (info_of []) ts)
unlisted [] = tt
unlisted (t ∷ ts) = (unlisted_one t, unlisted ts)

parsed_app :
    (st : Settings) (t : Target)
    → validate st t ≡ ok tt
    → parse_structured t.name (render (app t)) ≡ some (app t)
unfolding app
parsed_app st t v = parse_structured-render_of_valid_app st (app t) (validate_app_of st t v)

-- The fragment that a target's App Route has is listed without drift.
routed-no_drift :
    (sys : System) (st : Settings) (t : Target) (d : Dir) (files : List Bytes)
    → sys.read_ok t.name ≡ true
    → validate st t ≡ ok tt
    → contains (fragment_names files) t.name ≡ true
    → route_state (listed (AppRoutes.list sys (ok files) (routed t d))) t ≡ (false, false)
unfolding route_state AppRoutes.list list_fragments
routed-no_drift sys st t d files r v c = elim (Bool-cases (uses_app_route t)) [
  | inr own ↦ simp own refl
  | inl carried ↦
      let next : Dir = put t.name (render (app t)) d in
      let there : lookup t.name next ≡ some (render (app t)) =
        rw (lookup-put t.name t.name (render (app t)) d, equal_refl t.name) refl in
      let i : Info App = record {
        name = t.name;
        raw = render (app t);
        structured = some (app t);
      } in
      let parsed : parse_structured t.name (render (app t)) ≡ some (app t) = parsed_app st t v in
      let read : read_info sys parse_structured t.name next ≡ some i =
        simp (r, there, parsed) refl in
      simp (carried, find-sorted sys parse_structured next t.name i (fragment_names files) read c)
        (compared_self t (render (app t)))
]

-- the name under which `List` shows a target
abbrev pub shown_name : TargetInfo → Bytes
shown_name i = i.stored.name

find-infos :
    (n : Bytes) (routes : List (Info App)) (ts : List Target) (t : Target)
    → find name_of n ts ≡ some t
    → find shown_name n (map (info_of routes) ts) ≡ some (info_of routes t)
unfolding find info_of
find-infos n routes [] t h = cc
find-infos n routes (u ∷ ts) t h = elim (Bool-cases (equal u.name n)) [
  | inl same ↦ rw same (ap (λ x. some (info_of routes x)) (some-injective _ _ (rw same at h)))
  | inr other ↦ rw other (find-infos n routes ts t (rw other at h))
]

-- the target, or one of another name
abbrev IsOther : Target → Target → Type 0
IsOther t u = (u ≡ t) ⊎ (equal u.name t.name ≡ false)

find-only :
    (t : Target) (ts : List Target)
    → All (IsOther t) ts
    → has name_of t.name ts ≡ true
    → find name_of t.name ts ≡ some t
unfolding find has
find-only t [] a h = cc
find-only t (u ∷ ts) a h = elim a.0 [
  | inl same ↦ rw (same, equal_refl t.name) refl
  | inr other ↦ rw other (find-only t ts a.1 (rw other at h))
]

all_others : (t : Target) (ts : List Target) → has name_of t.name ts ≡ false → All (IsOther t) ts
unfolding has
all_others t [] h = tt
all_others t (u ∷ ts) h = (inr (ground (arith, h)), all_others t ts (ground (arith, h)))

find-recorded :
    (t : Target) (ts : List Target)
    → has name_of t.name ts ≡ false
    → find name_of t.name (sort name_of (ts ++ t ∷ [])) ≡ some t
find-recorded t ts free =
    find-only t (sort name_of (ts ++ t ∷ []))
      (All-sort name_of (IsOther t) (ts ++ t ∷ [])
        (All-append (IsOther t) ts (t ∷ []) (all_others t ts free) (inl refl, tt)))
      (has-sort name_of t.name (ts ++ t ∷ [])
        ∙ (has-append name_of t.name ts t ∙ rw (free, equal_refl t.name) refl))

created_free :
    {C : Type 0} (b : Codec (List Target) C) (sys : System) (st : Settings) (t : Target)
    (w : Files C) (targets : List Target)
    → validate st t ≡ ok tt
    → Document.read_from b [] w.registry ≡ ok targets
    → ((create b sys st t w).0 ≡ ok tt) ⊎ ((create b sys st t w).0 ≡ err reload_failed)
    → has name_of t.name targets ≡ false
unfolding create load Document.load
created_free b sys st t w targets v l done = elim (Bool-cases (has name_of t.name targets)) [
  | inr free ↦ free
  | inl taken ↦
      absurd
        (not_done target_exists (create b sys st t w).0 (simp (v, l, taken) refl) (λ e. cc) done)
]

module _ {C : Type 0} (b : Codec (List Target) C) (sys : System) where
  list-held :
      Reliable.IsReliable b
      → (v : Files C) (ts : List Target) (files : List Bytes) → v.registry ≡ some (b.marshal ts)
      → (list b sys (ok files) v).0
        ≡ ok (map (info_of (listed (AppRoutes.list sys (ok files) v.routes))) ts)
  unfolding list load Document.load Document.read_from
  list-held c v ts files h = simp (h, c.reads, c.codec.unmarshal-marshal ts) refl

  -- Where the registry and the App Routes can be looked up, read, written and removed, and
  -- encoding/json reads back what it writes: after a `Create` that put a target on record, also one
  -- where the reload of Caddy had failed, `List` over the files that `Create` left, with a listing of
  -- the directory that has the fragment of that name, answers a list in which that target stands
  -- under its name, with neither a missing nor a diverged route.
  pub create-no_drift :
      (st : Settings) (t : Target) (w : Files C) (files : List Bytes)
      → Reliable.IsReliable b
      → IsReliable sys
      → ((n : Bytes) → sys.stat_ok n ≡ true)
      → ((create b sys st t w).0 ≡ ok tt) ⊎ ((create b sys st t w).0 ≡ err reload_failed)
      → contains (fragment_names files) t.name ≡ true
      → (is : List TargetInfo) × (i : TargetInfo) × ((list b sys
            (ok files)
            (create b sys st t w).1).0
          ≡ ok is)
        × (find shown_name t.name is ≡ some i)
        × (i.stored ≡ t)
        × (i.route_missing ≡ false)
        × (i.route_diverged ≡ false)
  create-no_drift st t w files c r stats done names =
      elim (create-atomic_vnc sys r stats b st t w) [
        | inr (x, e, k, registry, same) ↦ absurd (not_done x (create b sys st t w).0 e k done)
        | inl (targets, l, (q, registry, routes)) ↦
            let valid = created_valid b sys st t w done in
            let free = created_free b sys st t w targets valid l done in
            let d : Dir = (create b sys st t w).1.routes in
            let shown : List (Info App) = listed (AppRoutes.list sys (ok files) d) in
            let kept : route_state shown t ≡ (false, false) =
              rw routes (routed-no_drift sys st t w.routes files (r.reads t.name) valid names) in
            (
              map (info_of shown) (sort name_of (targets ++ t ∷ [])),
              info_of shown t,
              list-held c (create b sys st t w).1 (sort name_of (targets ++ t ∷ [])) files registry,
              find-infos t.name shown (sort name_of (targets ++ t ∷ [])) t
                  (find-recorded t targets free),
              (unfold info_of in refl),
              (unfold info_of in ap (λ p. p.0) kept),
              (unfold info_of in ap (λ p. p.1) kept),
            )
      ]

  -- `List` answers every stored target also when the directory of App Routes cannot be read, but
  -- it then reports the route of each target whose backend has one as missing, and no other.
  pub list-unlisted :
      (x : Error) (w : Files C) (targets : List Target)
      → (load b w.registry).0 ≡ ok targets
      → (is : List TargetInfo) × ((list b sys (err x) w).0 ≡ ok is)
        × (map (λ i. i.stored) is ≡ targets)
        × All (λ i. (i.route_missing ≡ uses_app_route i.stored) × (i.route_diverged ≡ false)) is
  unfolding list load Document.load AppRoutes.list list_fragments
  list-unlisted x w targets l =
      (map (info_of []) targets, simp l refl, stored_of targets, unlisted targets)
