-- ===== src/Tests/Proxy.antt =====
-- The fragment stores, on a small directory.
use router_docker.Prelude.{◌≡◌, ◌≢◌, ◌⊎◌, refl, true, none, some, [], ◌∷◌, ◌++◌, ok}
use router_docker.Text.{contains, equal, codes}
use router_docker.Fragments.{System}
use router_docker.Fragments.Files.{Dir, lookup, put}
use router_docker.Fragments.Laws.{IsReliable, Saved, Untouched, renamed}
use router_docker.DevProxy.Fragment.{Route, Expose, render, parse_structured}
use router_docker.DevProxy.Validate.{Settings, validate_expose}
use router_docker.DevProxy.Validate.Lines.{parse_structured-render_of_valid}
use router_docker.DevProxy.Store.{create, update_structured}
use router_docker.DevProxy.Store.Atomic.{create-atomic, update_structured-atomic, rename-safe}
use router_docker.AppRoutes.Fragment
use router_docker.AppRoutes.Fragment.{App}
use router_docker.AppRoutes.Validate.{validate_app, parse_structured-render_of_valid_app}
use router_docker.AppRoutes.Store
use router_docker.AppRoutes.Store.Atomic.{create-atomic_app}
use router_docker.Fragments.Normalize.{is_distinct, settled}
use router_docker.DevProxy.Normalize
use router_docker.DevProxy.Normalize.{normalize-settled}
use router_docker.TargetGuard

abbrev settings : Settings
settings = record { allowed = codes "code-docker" ∷ codes "dind" ∷ []; external = none }

abbrev api_route : Route
api_route = record {
  mode = codes "handle";
  path = codes "/api/*";
  target = codes "code-docker:8080";
  require_auth = true;
  strip_prefix = codes "/api";
  rewrite_prefix = codes "/v1";
}

abbrev shop : Expose
shop = record { name = codes "shop"; host = codes "*.shop.test"; routes = api_route ∷ [] }

abbrev wiki : App
wiki = record { name = codes "wiki"; target = codes "code-docker:3000"; require_auth = true }

-- a system on which every call works, and a Caddy that refuses a directory with `shop`
abbrev working : System
working = record {
  stat_ok = λ _. true;
  read_ok = λ _. true;
  mkdir_ok = true;
  write_ok = λ _ _. true;
  torn = λ _ _. none;
  remove_ok = λ _. true;
  adapt_ok = λ _. true;
  reload_ok = λ _. true;
}

abbrev working-IsReliable : IsReliable working
working-IsReliable = record { reads = λ _. refl; writes = λ _ _. refl; removes = λ _. refl }

abbrev files : Dir
files = (codes "old", codes "kept") ∷ []

shop-valid : validate_expose settings shop ≡ ok tt
unfolding validate_expose TargetGuard.validate TargetGuard.validate_host TargetGuard.is_self_host
    TargetGuard.is_target_text
shop-valid = refl

wiki-valid : validate_app settings wiki ≡ ok tt
unfolding validate_app TargetGuard.validate TargetGuard.validate_host TargetGuard.is_self_host
wiki-valid = refl

parse_structured-render_of_valid_example : parse_structured (codes "shop") (render shop) ≡ some shop
parse_structured-render_of_valid_example = parse_structured-render_of_valid settings shop shop-valid

parse_structured-render_of_valid_app_example :
    Fragment.parse_structured (codes "wiki") (Fragment.render wiki) ≡ some wiki
parse_structured-render_of_valid_app_example =
    parse_structured-render_of_valid_app settings wiki wiki-valid

create-atomic_example :
    Saved (create working settings shop files) (put (codes "shop") (render shop) files)
    ⊎ Untouched (create working settings shop files) files
create-atomic_example = create-atomic working settings shop files working-IsReliable

update_structured-atomic_example :
    Saved
      (update_structured working settings (codes "old") shop files)
      (renamed working (λ x. x.name) (validate_expose settings) render (codes "old") shop files)
    ⊎ Untouched (update_structured working settings (codes "old") shop files) files
update_structured-atomic_example =
    update_structured-atomic working settings (codes "old") shop files working-IsReliable

shop_old : codes "shop" ≢ codes "old"
shop_old h = cc

rename-safe_example :
    (let r : Dir = (update_structured working settings (codes "old") shop files).1 in
      (lookup (codes "old") r ≡ lookup (codes "old") files)
      ⊎ (lookup (codes "shop") r ≡ some (render shop)))
rename-safe_example = rename-safe working settings (codes "old") shop files shop_old

create-atomic_app_example :
    Saved
      (Store.create working settings wiki files)
      (put (codes "wiki") (Fragment.render wiki) files)
    ⊎ Untouched (Store.create working settings wiki files) files
create-atomic_app_example = create-atomic_app working settings wiki files working-IsReliable

-- a fragment with a blank line at its end, and a text that is not one
abbrev untidy : Dir
untidy = (codes "shop", render shop ++ codes "\n") ∷ (codes "old", codes "kept") ∷ []

normalize-settled_example :
    ((Normalize.normalize working (ok (codes "shop" ∷ codes "old" ∷ [])) untidy).0.1 ≡ ok tt)
    × (lookup
          (codes "shop")
          (Normalize.normalize working (ok (codes "shop" ∷ codes "old" ∷ [])) untidy).1
        ≡ settled working parse_structured render (codes "shop") (lookup (codes "shop") untidy))
unfolding contains equal
normalize-settled_example =
    normalize-settled working (codes "shop" ∷ codes "old" ∷ []) (codes "shop") untidy
      working-IsReliable (unfold is_distinct in refl)
