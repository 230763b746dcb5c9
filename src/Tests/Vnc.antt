-- ===== src/Tests/Vnc.antt =====
-- The VNC targets, over a registry file that holds the list itself.
use mathlib.Core.Option.{some-injective}
use router_docker.Prelude.{
  ◌≡◌, ◌⊎◌, refl, inl, true, false, none, some, List, [], ◌∷◌, All, map, ok, err, subst, io,
}
use router_docker.Text.{Bytes, codes, contains, cut_suffix}
use router_docker.Keyed.{distinct}
use router_docker.Keyed.Order.{ascending}
use router_docker.Document.{Codec, read_from}
use router_docker.Document.Laws.{IsCodec, Holds, answering}
use router_docker.TargetGuard
use router_docker.Fragments
use router_docker.Fragments.Files as FragmentFiles
use router_docker.AppRoutes.Validate.{validate_app}
use router_docker.Fragments.{System}
use router_docker.Fragments.Laws.{IsReliable}
use router_docker.Fragments.Listing.{fragment_names}
use router_docker.DevProxy.Validate.{Settings}
use router_docker.Vnc.Target.{Target, uses_app_route}
use router_docker.Vnc.Store.{Files, TargetInfo, create, load, list}
use router_docker.Vnc.Viewer.{viewer_path}
use router_docker.Vnc.Atomic.{Recorded, Kept, create-atomic_vnc}
use router_docker.Vnc.Keeps.{IsRegistry}
use router_docker.Vnc.Invariant.{start, creates, VncCalls-IsRegistry}
use router_docker.Keyed.{find}
use router_docker.Document.Laws as Reliable
use router_docker.Vnc.Drift.{shown_name, create-no_drift, list-unlisted}

abbrev codec : Codec (List Target) (List Target)
codec = record { marshal = λ c. c; unmarshal = λ c. some c; read_ok = true; write_ok = true }

abbrev codec-IsCodec : IsCodec codec
codec-IsCodec = record { unmarshal-marshal = λ _. refl }

abbrev system : System
system = record {
  stat_ok = λ _. true;
  read_ok = λ _. true;
  mkdir_ok = true;
  write_ok = λ _ _. true;
  torn = λ _ _. none;
  remove_ok = λ _. true;
  adapt_ok = λ _. true;
  reload_ok = λ _. true;
}

abbrev system-IsReliable : IsReliable system
system-IsReliable = record { reads = λ _. refl; writes = λ _ _. refl; removes = λ _. refl }

abbrev settings : Settings
settings = record { allowed = codes "code-docker" ∷ []; external = none }

abbrev desk : Target
desk = record {
  name = codes "desk";
  label = codes "Desk";
  target = codes "code-docker:6080";
  backend = codes "novnc";
  require_auth = false;
  resize_mode = [];
}

abbrev nothing : Files (List Target)
nothing = record { registry = none; routes = [] }

desk_viewer : viewer_path desk ≡ codes "/app/desk/vnc.html?autoconnect=1&reconnect=1&resize=remote"
unfolding viewer_path
desk_viewer = refl

create-atomic_vnc_example :
    (let v = create codec system settings desk nothing in
      ((targets : List Target) × (read_from codec [] none ≡ ok targets)
        × Recorded system system-IsReliable (λ _. refl) codec desk targets nothing v)
      ⊎ Kept system system-IsReliable (λ _. refl) codec nothing v)
create-atomic_vnc_example =
    create-atomic_vnc system system-IsReliable (λ _. refl) codec settings desk nothing

first_state-Holds : Holds (IsRegistry settings) codec [] none
first_state-Holds ts h =
    subst (IsRegistry settings) (some-injective _ _ h)
      (record { checked = tt; ordered = unfold ascending in refl; names = unfold distinct in refl })

VncCalls-IsRegistry_example :
    Holds
      (IsRegistry settings)
      codec
      []
      (create (answering true true codec) system settings desk nothing).1.registry
VncCalls-IsRegistry_example =
    VncCalls-IsRegistry codec-IsCodec first_state-Holds (creates true true system desk start)

desk_created : (create codec system settings desk nothing).0 ≡ ok tt
unfolding create TargetGuard.validate read_from validate_app Fragments.exists_file
    FragmentFiles.lookup Fragments.write_and_validate Fragments.write_file Fragments.validate_tree
    Fragments.reload_after_write
desk_created = refl

abbrev listing : List Bytes
listing = codes "desk.caddy" ∷ []

desk_listed : contains (fragment_names listing) (codes "desk") ≡ true
unfolding contains fragment_names cut_suffix
desk_listed = refl

codec-IsReliable : Reliable.IsReliable codec
codec-IsReliable = record { codec = codec-IsCodec; reads = refl; writes = refl }

create-no_drift_example :
    (is : List TargetInfo) × (i : TargetInfo) × ((list codec system
        (ok listing)
        (create codec system settings desk nothing).1).0
      ≡ ok is)
    × (find shown_name (codes "desk") is ≡ some i)
    × (i.stored ≡ desk)
    × (i.route_missing ≡ false)
    × (i.route_diverged ≡ false)
create-no_drift_example =
    create-no_drift codec system settings desk nothing listing codec-IsReliable system-IsReliable
      (λ _. refl) (inl desk_created) desk_listed

abbrev registered : Files (List Target)
registered = record { registry = some (desk ∷ []); routes = [] }

desk_loaded : (load codec (some (desk ∷ []))).0 ≡ ok (desk ∷ [])
unfolding load read_from
desk_loaded = refl

list-unlisted_example :
    (is : List TargetInfo) × ((list codec system (err io) registered).0 ≡ ok is)
    × (map (λ i. i.stored) is ≡ desk ∷ [])
    × All (λ i. (i.route_missing ≡ uses_app_route i.stored) × (i.route_diverged ≡ false)) is
list-unlisted_example = list-unlisted codec system io registered (desk ∷ []) desk_loaded
