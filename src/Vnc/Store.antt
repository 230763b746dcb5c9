-- ===== src/Vnc/Store.antt =====
-- backend/internal/vnc/vnc.go: the registry file beside the App Routes, and the operations on both.
use router_docker.Prelude.Exec.{Exec, ◌>>=◌, ◌>>◌, pure, fail, lift, require}
use router_docker.Prelude.{
  Bool, true, false, not, ◌||◌, Option, none, some, List, [], ◌∷◌, ◌++◌, map, if◌then◌else◌, Error,
  Result, ok, err, not_found, reload_failed, target_exists, target_not_found,
}
use router_docker.Text.{Bytes, equal}
use router_docker.Keyed.{has, find, replace, remove_first}
use router_docker.Keyed.Order.{sort}
use router_docker.Document
use router_docker.Document.{Codec}
use router_docker.Fragments.{System}
use router_docker.Fragments.Files.{Dir}
use router_docker.Fragments.Listing
use router_docker.Fragments.Listing.{Info}
use router_docker.DevProxy.Validate.{Settings}
use router_docker.AppRoutes.Fragment.{App}
use router_docker.AppRoutes.Store as AppRoutes
use router_docker.Vnc.Target.{Target, name_of, uses_app_route, validate}
use router_docker.Vnc.Viewer.{viewer_path, viewer_origin}

-- the registry file, and the directory of App Routes
pub record Files (C : Type 0) : Type 0 where
  pub registry : Option C
  pub routes : Dir

module _ {C A : Type 0} where
  abbrev pub on_registry_done : Files C → Result A × Option C → Result A × Files C
  on_registry_done w (r, f) = (r, record w { registry = f })

  abbrev pub on_registry : Exec (Option C) A → Exec (Files C) A
  on_registry m w = on_registry_done w (m w.registry)

  abbrev pub on_routes_done : Files C → Result A × Dir → Result A × Files C
  on_routes_done w (r, d) = (r, record w { routes = d })

  abbrev pub on_routes : Exec Dir A → Exec (Files C) A
  on_routes m w = on_routes_done w (m w.routes)

-- `problem := f()`: an error is a value, and what comes next decides
abbrev pub attempted : {S : Type 0} → Result (Unit {0}) × S → Result (Option Error) × S
attempted (ok a, s) = (ok none, s)
attempted (err e, s) = (ok (some e), s)

abbrev pub attempt : {S : Type 0} → Exec S (Unit {0}) → Exec S (Option Error)
attempt m s = attempted (m s)

unfoldable pub is_reload_failed : Error → Bool
is_reload_failed reload_failed = true
is_reload_failed problem = false

unfoldable pub is_not_found : Error → Bool
is_not_found not_found = true
is_not_found problem = false

-- `if problem != nil && !errors.Is(problem, ErrReloadFailed) { return problem }`
abbrev pub checked : {S : Type 0} → Option Error → Exec S (Unit {0})
checked none s = (ok tt, s)
checked (some e) s = if is_reload_failed e then (ok tt, s) else (err e, s)

-- `return problem`
abbrev pub answered : {S : Type 0} → Option Error → Exec S (Unit {0})
answered none s = (ok tt, s)
answered (some e) s = (err e, s)

-- a missing route is no problem
abbrev pub unless_missing : Option Error → Option Error
unless_missing none = none
unless_missing (some e) = if is_not_found e then none else some e

abbrev pub is_missing : Option Error → Bool
is_missing none = false
is_missing (some e) = is_not_found e

unfoldable pub app : Target → App
app t = record { name = t.name; target = t.target; require_auth = t.require_auth }

abbrev pub same_flag : Bool → Bool → Bool
same_flag true b = b
same_flag false b = not b

-- what `RouteMissing` and `RouteDiverged` say of a target's fragment
abbrev pub compared : Target → Option (Info App) → Bool × Bool
compared t none = (true, false)
compared t (some i) = (
  false,
  elim i.structured [
    | none ↦ true
    | some a ↦ not (equal a.target t.target) || not (same_flag a.require_auth t.require_auth)
  ],
)

unfoldable pub route_state : List (Info App) → Target → Bool × Bool
unfolding find uses_app_route
route_state routes t =
    if uses_app_route t then compared t (find Listing.name_of t.name routes) else (false, false)

pub record TargetInfo : Type 0 where
  pub stored : Target
  pub viewer_path : Bytes
  pub viewer_origin : Bytes
  pub route_missing : Bool
  pub route_diverged : Bool

unfoldable pub info_of : List (Info App) → Target → TargetInfo
unfolding route_state viewer_path viewer_origin
info_of routes t = record {
  stored = t;
  viewer_path = viewer_path t;
  viewer_origin = viewer_origin t;
  route_missing = (route_state routes t).0;
  route_diverged = (route_state routes t).1;
}

-- the routes that could be listed, none if listing failed
abbrev pub listed : Result (List (Info App)) → List (Info App)
listed (ok routes) = routes
listed (err e) = []

abbrev pub found : Option Target → Result Target
found none = err target_not_found
found (some t) = ok t

module _ (sys : System) where
  -- an App Route for a target whose backend has one
  unfoldable pub create_route : Settings → Target → Exec Dir (Unit {0})
  unfolding AppRoutes.create app uses_app_route
  create_route st t = if uses_app_route t then AppRoutes.create sys st (app t) else pure tt

  -- the App Route of a target that is edited: kept, made, or removed
  unfoldable pub carry_route : Settings → Bytes → Bool → Bool → Target → Exec Dir (Option Error)
  unfolding AppRoutes.update_structured AppRoutes.create AppRoutes.delete app is_not_found
  carry_route st old true true t = do
    update_error ← attempt (AppRoutes.update_structured sys st old (app t))
    (if is_missing update_error
        then attempt (AppRoutes.create sys st (app t))
        else pure update_error)
  carry_route st old true false t = do
    delete_error ← attempt (AppRoutes.delete sys old)
    pure (unless_missing delete_error)
  carry_route st old false true t = attempt (AppRoutes.create sys st (app t))
  carry_route st old false false t = pure none

module _ {C : Type 0} (b : Codec (List Target) C) where
  unfoldable pub load : Exec (Option C) (List Target)
  unfolding Document.load
  load = Document.load b []

  unfoldable pub save : List Target → Exec (Option C) (Unit {0})
  unfolding sort Document.save
  save targets = Document.save b (sort name_of targets)

  unfoldable pub get : Bytes → Exec (Option C) Target
  unfolding load find
  get name = do targets ← load; lift (found (find name_of name targets))

  module _ (sys : System) where
    -- with what `os.ReadDir` answers for the App Routes
    unfoldable pub list : Result (List Bytes) → Exec (Files C) (List TargetInfo)
    unfolding load info_of AppRoutes.list
    list files w =
        (do
          targets ← on_registry load
          pure (map (info_of (listed (AppRoutes.list sys files w.routes))) targets))
          w

    -- the roll back of a failed save, its own error dropped
    unfoldable pub roll_back : Target → Error → Exec (Files C) (Unit {0})
    unfolding AppRoutes.delete uses_app_route
    roll_back t e = do
      attempt (if uses_app_route t then on_routes (AppRoutes.delete sys t.name) else pure tt)
      fail e

    -- the end of `Create`: the registry is saved, or the route is taken back
    unfoldable pub finish_create : Target → Option Error → Option Error → Exec (Files C) (Unit {0})
    unfolding roll_back
    finish_create t create_error none = answered create_error
    finish_create t create_error (some e) = roll_back t e

    -- behind the App Route: its error may stop the call, or the target is recorded
    unfoldable pub register : Target → List Target → Option Error → Exec (Files C) (Unit {0})
    unfolding is_reload_failed save finish_create
    register t targets create_error = do
      checked create_error
      save_error ← attempt (on_registry (save (targets ++ t ∷ [])))
      finish_create t create_error save_error

    unfoldable pub create : Settings → Target → Exec (Files C) (Unit {0})
    unfolding validate load has create_route register
    create st t = do
      lift (validate st t)
      targets ← on_registry load
      require (not (has name_of t.name targets)) target_exists
      create_error ← attempt (on_routes (create_route sys st t))
      register t targets create_error

    unfoldable pub update : Settings → Bytes → Target → Exec (Files C) (Unit {0})
    unfolding validate load has find uses_app_route carry_route is_reload_failed save replace
    update st old t = do
      lift (validate st t)
      targets ← on_registry load
      stored ← lift (found (find name_of old targets))
      require (equal t.name old || not (has name_of t.name targets)) target_exists
      update_error ← on_routes (carry_route sys st old (uses_app_route stored) (uses_app_route t) t)
      checked update_error
      on_registry (save (replace name_of old t targets))
      answered update_error

    unfoldable pub delete : Bytes → Exec (Files C) (Unit {0})
    unfolding load find uses_app_route AppRoutes.delete is_not_found is_reload_failed save
        remove_first
    delete name = do
      targets ← on_registry load
      stored ← lift (found (find name_of name targets))
      delete_error ←
          on_routes
            (if uses_app_route stored then attempt (AppRoutes.delete sys name) else pure none)
      checked (unless_missing delete_error)
      on_registry (save (remove_first name_of name targets))
      answered (unless_missing delete_error)
