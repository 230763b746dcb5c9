-- ===== src/DevProxy/Store.antt =====
-- backend/internal/devproxy/devproxy.go: `Create`, `UpdateStructured`, `UpdateRaw` and `Delete`,
-- the fragment directory with the expose as its template.
pub mod Atomic
use router_docker.Prelude.{List, Result}
use router_docker.Text.{Bytes}
use router_docker.Fragments
use router_docker.Fragments.Files.{Dir}
use router_docker.Fragments.Listing.{Info, list_fragments}
use router_docker.Fragments.{System, Disk}
use router_docker.DevProxy.Fragment.{Expose, render, parse_structured}
use router_docker.DevProxy.Validate.{Settings, validate_name, validate_expose}

module _ (sys : System) where
  unfoldable pub create : Settings → Expose → Disk (Unit {0})
  unfolding Fragments.create
  create st e = Fragments.create sys (λ x. x.name) (validate_expose st) render e

  unfoldable pub update_structured : Settings → Bytes → Expose → Disk (Unit {0})
  unfolding Fragments.update_structured
  update_structured st old e =
      Fragments.update_structured sys (λ x. x.name) (validate_expose st) render old e

  unfoldable pub update_raw : Bytes → Bytes → Disk (Unit {0})
  unfolding Fragments.update_raw
  update_raw name raw = Fragments.update_raw sys validate_name name raw

  unfoldable pub delete : Bytes → Disk (Unit {0})
  unfolding Fragments.delete
  delete name = Fragments.delete sys validate_name name

  -- `List`, with the files that the directory holds
  unfoldable pub list : Result (List Bytes) → Dir → Result (List (Info Expose))
  unfolding list_fragments parse_structured
  list files d = list_fragments sys parse_structured files d
