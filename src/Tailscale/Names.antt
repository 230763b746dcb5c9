-- ===== src/Tailscale/Names.antt =====
-- What the forwards promise, without the file: a map from names to forwards, and each operation on
-- it.
use router_docker.Prelude.Exec.{Exec, ◌>>◌, lift}
use router_docker.Prelude.{
  not, Option, none, some, List, [], ◌∷◌, if◌then◌else◌, is_empty, Result, ok, err, guard,
  validation, already_exists, not_found,
}
use router_docker.Text.{Bytes, equal, is_some}
use router_docker.Tailscale.Config.{Forward}
use router_docker.Tailscale.Forwards.{check_forward}

abbrev pub Names : Type 0
Names = Bytes → Option Forward

-- the map with another value under one name
abbrev pub updated : Bytes → Option Forward → Names → Names
updated name v m k = if equal name k then v else m k

pub data Call : Type 0 where
  add : Forward → Call
  update : Bytes → Forward → Call
  delete : Bytes → Call

-- a write that is only made under a name that is free
unfoldable pub put_new : Bytes → Forward → Exec Names (Unit {0})
put_new name f m =
    if is_some (m name) then (err already_exists, m) else (ok tt, updated name (some f) m)

-- a write, or a removal, that is only made under a name that is taken
unfoldable pub put_old : Bytes → Option Forward → Exec Names (Unit {0})
put_old name v m = if is_some (m name) then (ok tt, updated name v m) else (err not_found, m)

unfoldable pub respond : Call → Exec Names (Unit {0})
unfolding put_new put_old
respond (add f) = do
  lift (guard (not (is_empty f.name)) validation)
  lift (check_forward f)
  put_new f.name f
respond (update name f) = do
  lift (check_forward (record f { name = name }))
  put_old name (some (record f { name = name }))
respond (delete name) = put_old name none

-- the answers to a sequence of calls, and the state that they leave
unfoldable pub serve {ℓ} :
    {S : Type ℓ} → (Call → Exec S (Unit {ℓ})) → List Call → S → List (Result (Unit {ℓ})) × S
serve step [] s = ([], s)
serve step (c ∷ cs) s = let (r, t) = step c s in let (rs, u) = serve step cs t in (r ∷ rs, u)
