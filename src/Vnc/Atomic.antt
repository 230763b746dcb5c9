-- ===== src/Vnc/Atomic.antt =====
-- A target is registered together with its App Route, or not at all.
use router_docker.Prelude.Exec.{continue, fail}
use router_docker.Prelude.{
  ◌≡◌, ◌≢◌, refl, ap, ◌∙◌, ◌⊎◌, inl, inr, Bool, true, not, ◌&&◌, ◌||◌, Option, none, some, List, [],
  ◌∷◌, ◌++◌, if◌then◌else◌, Error, Result, ok, err, io, guard, validation, reload_failed,
  target_exists, arith, Bool-cases, Result-cases, Result-split, IsPlain, IsPlain-not_reload,
  guard-IsPlain, then-IsPlain, >>-eq-ok, is_empty, leb, length, any, ◌>>◌,
}
use router_docker.Text.{Bytes, contains, is_some}
use router_docker.Keyed.{has}
use router_docker.Keyed.Order.{sort}
use router_docker.Document
use router_docker.Document.{Codec}
use router_docker.Fragments.{System}
use router_docker.Fragments.Files.{Dir, SameFiles, lookup, put}
use router_docker.Fragments.Laws.{IsReliable, Saved, Untouched}
use router_docker.Fragments.RollBack.{create-new, delete-created}
use router_docker.DevProxy.Validate.{Settings, validate_name}
use router_docker.DevProxy.Store.Atomic.{validate_name-IsPlain, validate_target-IsPlain}
use router_docker.AppRoutes.Fragment.{App, render}
use router_docker.AppRoutes.Validate.{validate_app}
use router_docker.AppRoutes.Store as AppRoutes
use router_docker.AppRoutes.Store.Atomic.{validate_app-IsPlain}
use router_docker.Vnc.Target.{
  Target, resize_modes, is_control, backend_named, name_of, uses_app_route, validate,
}
use router_docker.Vnc.Store.{
  Files, app, register, attempted, on_routes_done, create_route, create, roll_back,
  is_reload_failed,
}

guarded-IsPlain : (b : Bool) (k : Result (Unit {0})) → IsPlain k → IsPlain (guard b validation >> k)
guarded-IsPlain b k h = then-IsPlain (guard b validation) k (guard-IsPlain b) h

pub validate-IsPlain_vnc : (st : Settings) (t : Target) → IsPlain (validate st t)
unfolding validate
validate-IsPlain_vnc st t = then-IsPlain (validate_name t.name) _ (validate_name-IsPlain t.name) (
    guarded-IsPlain (is_some (backend_named t.backend)) _ (
      guarded-IsPlain (contains resize_modes t.resize_mode || is_empty t.resize_mode) _ (
        guarded-IsPlain (not (t.require_auth && not (uses_app_route t))) _ (
          guarded-IsPlain (leb (length t.label) 200) _ (
            guarded-IsPlain (not (any is_control t.label)) _
              (validate_target-IsPlain st t.target))))))

-- the routes with that of a target
abbrev pub routed : Target → Dir → Dir
routed t d = if uses_app_route t then put t.name (render (app t)) d else d

-- the target was not in the way of another fragment
abbrev WasFree : Target → Dir → Type 0
WasFree t d = uses_app_route t ≡ true → lookup t.name d ≡ none

is_reload_failed_iff : (x : Error) → is_reload_failed x ≡ true → x ≡ reload_failed
unfolding is_reload_failed
is_reload_failed_iff x h = ground arith

only_reload :
    (x : Error)
    → ◌≡◌ {A = Result (Unit {0})} (err x) (ok tt)
      ⊎ ◌≡◌ {A = Result (Unit {0})} (err x) (err reload_failed)
    → x ≡ reload_failed
only_reload x (inl e) = cc
only_reload x (inr e) = cc

refused_first : (st : Settings) (t : Target) (x : Error) → validate st t ≡ err x → x ≢ reload_failed
refused_first st t x c e =
    IsPlain-not_reload (validate st t) (validate-IsPlain_vnc st t) (c ∙ ap err e)

named : (st : Settings) (t : Target) → validate st t ≡ ok tt → validate_name t.name ≡ ok tt
unfolding validate
named st t c = (>>-eq-ok (validate_name t.name) _ c).0

unreadable :
    {T C : Type 0} (b : Codec (List T) C) (f : Option C) (x : Error)
    → Document.read_from b [] f ≡ err x
    → x ≢ reload_failed
unfolding Document.read_from
unreadable b none x h e = cc
unreadable b (some content) x h e = ground arith

-- a roll back whose own error is dropped
dropped :
    {C : Type 0} (f : Option C) (d : Dir) (e : Error) (v : Result (Unit {0}) × Dir) (d' : Dir)
    → SameFiles v.1 d'
    → (let u =
          continue {B = Unit {0}}
            (attempted (on_routes_done (record { registry = f; routes = d }) v))
            (λ _ s. fail e s) in
        (u.0 ≡ err e) × (u.1.registry ≡ f) × SameFiles u.1.routes d')
dropped f d e (ok tt, s) d' h = (refl, refl, h)
dropped f d e (err x, s) d' h = (refl, refl, h)

module _ (sys : System) (r : IsReliable sys) (stats : (n : Bytes) → sys.stat_ok n ≡ true) where
  create_route-cases :
      (st : Settings) (t : Target) (d : Dir)
      → (Saved (create_route sys st t d) (routed t d) × WasFree t d)
        ⊎ Untouched (create_route sys st t d) d
  unfolding create_route AppRoutes.create app
  create_route-cases st t d = elim (Bool-cases (uses_app_route t)) [
    | inr own ↦ simp own (inl ((inl refl, refl), λ e. cc))
    | inl carried ↦
        simp carried
          (elim (create-new sys r stats (λ (x : App). x.name) (validate_app st) render (app t) d
            (IsPlain-not_reload (validate_app st (app t)) (validate_app-IsPlain st (app t)))) [
              | inl (saved, free) ↦ inl (saved, λ _. free)
              | inr kept ↦ inr kept
            ])
  ]

  module _ {C : Type 0} (b : Codec (List Target) C) where
    roll_back-SameFiles :
        (t : Target) (e : Error) (f : Option C) (d : Dir)
        → validate_name t.name ≡ ok tt
        → WasFree t d
        → (let v = roll_back b sys t e (record { registry = f; routes = routed t d }) in
            (v.0 ≡ err e) × (v.1.registry ≡ f) × SameFiles v.1.routes d)
    unfolding roll_back AppRoutes.delete
    roll_back-SameFiles t e f d n free = elim (Bool-cases (uses_app_route t)) [
      | inr own ↦ simp own (refl, refl, λ j. refl)
      | inl carried ↦
          let back =
            delete-created sys r stats validate_name t.name (render (app t)) d n (free carried) in
          simp carried (
            dropped f (put t.name (render (app t)) d) e
              (AppRoutes.delete sys t.name (put t.name (render (app t)) d)) d back)
    ]

    -- The target is on record, in order, with its route; at most the reload failed.
    abbrev pub Recorded : Target → List Target → Files C → Result (Unit {0}) × Files C → Type 0
    Recorded t targets w v =
        ((v.0 ≡ ok tt) ⊎ (v.0 ≡ err reload_failed))
        × (v.1.registry ≡ some (b.marshal (sort name_of (targets ++ t ∷ []))))
        × (v.1.routes ≡ routed t w.routes)

    -- The call failed, by another error; the registry and every route are as they were.
    abbrev pub Kept : Files C → Result (Unit {0}) × Files C → Type 0
    Kept w v =
        (x : Error) × (v.0 ≡ err x)
        × (x ≢ reload_failed)
        × (v.1.registry ≡ w.registry)
        × SameFiles v.1.routes w.routes

    rolled_back :
        (t : Target) (w : Files C)
        → validate_name t.name ≡ ok tt
        → WasFree t w.routes
        → Kept w (roll_back b sys t io (record w { routes = routed t w.routes }))
    rolled_back t w n free =
        let (failed, same, routes) = roll_back-SameFiles t io w.registry w.routes n free in
        (io, failed, λ p. cc, same, routes)

    -- the rest of the call, with the route in place
    register-none :
        (t : Target) (targets : List Target) (w : Files C)
        → validate_name t.name ≡ ok tt
        → WasFree t w.routes
        → (let v = register b sys t targets none (record w { routes = routed t w.routes }) in
            Recorded t targets w v ⊎ Kept w v)
    unfolding register Document.save
    register-none t targets w n free = elim (Bool-cases b.write_ok) [
      | inr e ↦ simp e (inr (rolled_back t w n free))
      | inl e ↦ simp e (inl (inl refl, refl, refl))
    ]

    register-reload_failed :
        (t : Target) (targets : List Target) (w : Files C)
        → validate_name t.name ≡ ok tt
        → WasFree t w.routes
        → (let v =
              register b sys t targets
                (some reload_failed)
                (record w { routes = routed t w.routes }) in
            Recorded t targets w v ⊎ Kept w v)
    unfolding register Document.save
    register-reload_failed t targets w n free = elim (Bool-cases b.write_ok) [
      | inr e ↦ simp e (inr (rolled_back t w n free))
      | inl e ↦ simp e (inl (inr refl, refl, refl))
    ]

    -- another error ends the call
    register-refused :
        (t : Target) (targets : List Target) (w : Files C) (x : Error) (d : Dir)
        → x ≢ reload_failed
        → SameFiles d w.routes
        → Kept w (register b sys t targets (some x) (record w { routes = d }))
    unfolding register
    register-refused t targets w x d k same = elim (Bool-cases (is_reload_failed x)) [
      | inl e ↦ absurd (k (is_reload_failed_iff x e))
      | inr e ↦ simp e (x, refl, k, refl, same)
    ]

    after_route :
        (t : Target) (targets : List Target) (w : Files C) (v : Result (Unit {0}) × Dir)
        → validate_name t.name ≡ ok tt
        → (Saved v (routed t w.routes) × WasFree t w.routes) ⊎ Untouched v w.routes
        → (let u =
              continue {B = Unit {0}} (attempted (on_routes_done w v)) (register b sys t targets) in
            Recorded t targets w u ⊎ Kept w u)
    after_route t targets w (ok tt, d) n (inl ((q, e), free)) =
        rw e (register-none t targets w n free)
    after_route t targets w (err x, d) n (inl ((q, e), free)) =
        rw (e, only_reload x q) (register-reload_failed t targets w n free)
    after_route t targets w (ok tt, d) n (inr (x, q, k, same)) = cc
    after_route t targets w (err y, d) n (inr (x, q, k, same)) =
        let z : y ≡ x = cc in rw z (inr (register-refused t targets w x d k same))

    -- Where the App Routes can be looked up, read, written and removed, `Create` puts the target on
    -- record, among the others and sorted by name, together with its App Route if its backend has
    -- one (answering success, or that only the reload of Caddy failed); or it answers another error,
    -- with the registry unchanged and every App Route as it was, also where the registry could not
    -- be written.
    pub create-atomic_vnc :
        (st : Settings) (t : Target) (w : Files C)
        → (let v = create b sys st t w in
            ((targets : List Target) × (Document.read_from b [] w.registry ≡ ok targets)
              × Recorded t targets w v)
            ⊎ Kept w v)
    unfolding create Document.load
    create-atomic_vnc st t w = elim (Result-cases (validate st t)) [
      | inr (x, c) ↦ simp c (inr (x, refl, refused_first st t x c, refl, λ j. refl))
      | inl c ↦ elim (Result-split (Document.read_from b [] w.registry)) [
        | inr (x, l) ↦ simp (c, l) (inr (x, refl, unreadable b w.registry x l, refl, λ j. refl))
        | inl (targets, l) ↦ elim (Bool-cases (has name_of t.name targets)) [
          | inl taken ↦ simp (c, l, taken) (inr (target_exists, refl, λ p. cc, refl, λ j. refl))
          | inr free ↦
              simp (c, l, free)
                (elim (after_route t targets w (create_route sys st t w.routes) (named st t c)
                  (create_route-cases st t w.routes)) [
                    | inl recorded ↦ inl (targets, refl, recorded)
                    | inr kept ↦ inr kept
                  ])
        ]
      ]
    ]
