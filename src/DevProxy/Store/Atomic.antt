-- ===== src/DevProxy/Store/Atomic.antt =====
-- A change of an expose is made as a whole or not at all.
use router_docker.Prelude.{
  Bool, true, false, not, ◌||◌, ◌≡◌, ◌≢◌, ◌⊎◌, arith, validation, guard, ◌>>◌, some, IsPlain,
  guard-IsPlain, then-IsPlain, for_each-IsPlain, IsPlain-not_reload,
}
use router_docker.Text.{Bytes, to_lower, contains}
use router_docker.Fragments.{System}
use router_docker.Fragments.Files.{Dir, lookup, put}
use router_docker.Fragments.Laws.{
  IsReliable, Saved, Untouched, create-cases, update_structured-cases, renamed,
}
use router_docker.Fragments.Plain.{update_raw-cases}
use router_docker.Fragments.Rename
use router_docker.TargetGuard
use router_docker.DevProxy.Fragment.{Route, Expose, render}
use router_docker.DevProxy.Validate.{
  Settings, validate_name, validate_host, validate_path_like, validate_target, validate_route,
  validate_expose,
}
use router_docker.DevProxy.Store.{create, update_structured, update_raw}

pub validate_name-IsPlain : (n : Bytes) → IsPlain (validate_name n)
unfolding validate_name
validate_name-IsPlain n = guard-IsPlain _

guards-IsPlain :
    (a b c d : Bool)
    → IsPlain
        (guard a validation >> (guard b validation >> (guard c validation >> guard d validation)))
guards-IsPlain false b c d x h = ground arith
guards-IsPlain true false c d x h = ground arith
guards-IsPlain true true false d x h = ground arith
guards-IsPlain true true true d x h = guard-IsPlain d x h

pub validate_target-IsPlain : (st : Settings) (t : Bytes) → IsPlain (validate_target st t)
unfolding validate_target TargetGuard.validate TargetGuard.validate_host
validate_target-IsPlain st t =
    let (host, port) = TargetGuard.target_parts t in
    let h = to_lower host in
    guards-IsPlain (TargetGuard.is_target_text t) (not (TargetGuard.is_self_host h))
      (not (TargetGuard.is_denied h port))
      (TargetGuard.opts_out st.external || contains st.allowed h)

validate_path_like-IsPlain : (p : Bytes) → IsPlain (validate_path_like p)
unfolding validate_path_like
validate_path_like-IsPlain p = guard-IsPlain _

validate_route-IsPlain : (st : Settings) (rt : Route) → IsPlain (validate_route st rt)
unfolding validate_route
validate_route-IsPlain st rt =
    then-IsPlain (validate_path_like rt.path) _ (validate_path_like-IsPlain rt.path) (
      then-IsPlain (validate_target st rt.target) _ (validate_target-IsPlain st rt.target) (
        then-IsPlain (validate_path_like rt.strip_prefix) _
          (validate_path_like-IsPlain rt.strip_prefix)
          (then-IsPlain (validate_path_like rt.rewrite_prefix) _
            (validate_path_like-IsPlain rt.rewrite_prefix) (guard-IsPlain _))))

validate_host-IsPlain : (h : Bytes) → IsPlain (validate_host h)
unfolding validate_host
validate_host-IsPlain h = guard-IsPlain _

validate_expose-IsPlain : (st : Settings) (e : Expose) → IsPlain (validate_expose st e)
unfolding validate_expose
validate_expose-IsPlain st e =
    then-IsPlain (validate_name e.name) _ (validate_name-IsPlain e.name) (
      then-IsPlain (validate_host e.host) _ (validate_host-IsPlain e.host)
        (for_each-IsPlain (validate_route st) e.routes (validate_route-IsPlain st)))

module _ (sys : System) where
  -- On a system whose reads, writes and removals do not fail, `Create` saves the rendered expose
  -- (reporting success, or that only the reload failed), or reports another error and leaves every
  -- file as it was.
  pub create-atomic :
      (st : Settings) (e : Expose) (d : Dir)
      → IsReliable sys
      → Saved (create sys st e d) (put e.name (render e) d) ⊎ Untouched (create sys st e d) d
  unfolding create
  create-atomic st e d r =
      create-cases sys (λ x. x.name) (validate_expose st) render e d r
        (IsPlain-not_reload (validate_expose st e) (validate_expose-IsPlain st e))

  -- On a system whose reads, writes and removals do not fail, `UpdateStructured` saves the rendered
  -- expose, without the old file if the name changed (reporting success, or that only the reload
  -- failed), or reports another error and leaves every file as it was.
  pub update_structured-atomic :
      (st : Settings) (old : Bytes) (e : Expose) (d : Dir)
      → IsReliable sys
      → Saved
          (update_structured sys st old e d)
          (renamed sys (λ x. x.name) (validate_expose st) render old e d)
        ⊎ Untouched (update_structured sys st old e d) d
  unfolding update_structured
  update_structured-atomic st old e d r =
      update_structured-cases sys (λ x. x.name) (validate_expose st) render old e d r
        (IsPlain-not_reload (validate_expose st e) (validate_expose-IsPlain st e))

  -- On a system whose reads, writes and removals do not fail, `UpdateRaw` saves the given text
  -- (reporting success, or that only the reload failed), or reports another error and leaves every
  -- file as it was.
  pub update_raw-atomic :
      (name raw : Bytes) (d : Dir)
      → IsReliable sys
      → Saved (update_raw sys name raw d) (put name raw d) ⊎ Untouched (update_raw sys name raw d) d
  unfolding update_raw
  update_raw-atomic name raw d r =
      update_raw-cases sys validate_name name raw d r (validate_name-IsPlain name)

  -- Whatever the system and Caddy answer on the way, an `UpdateStructured` that renames ends with
  -- the old fragment unchanged, or with the new one written in full.
  pub rename-safe :
      (st : Settings) (old : Bytes) (e : Expose) (d : Dir)
      → e.name ≢ old
      → (let r : Dir = (update_structured sys st old e d).1 in
          (lookup old r ≡ lookup old d) ⊎ (lookup e.name r ≡ some (render e)))
  unfolding update_structured
  rename-safe st old e d ne =
      Rename.rename_safe sys (λ x. x.name) (validate_expose st) render old e d ne
