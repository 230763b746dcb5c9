-- ===== src/Dns/Listing/Conflicts.antt =====
-- The hosts that `List` reports as duplicates.
use router_docker.Prelude.{◌≡◌, ◌≢◌, Bool, true, List, [], Result, ok, err}
use router_docker.Text.{Bytes}
use router_docker.Dns.System.{System}
use router_docker.Dns.Listing.{Owners, ListResult}

-- two different names among these
abbrev pub HasTwo : (Bytes → Bool) → Type 0
HasTwo owner = (a : Bytes) × (b : Bytes) × (a ≢ b) × (owner a ≡ true) × (owner b ≡ true)

abbrev duplicates_of : Result ListResult → List Bytes
duplicates_of (err e) = []
duplicates_of (ok r) = r.duplicate_hosts
