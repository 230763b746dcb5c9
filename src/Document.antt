-- ===== src/Document.antt =====
-- A settings file as backend/internal/tailscale, vnc and dns keep one: a value that is read whole,
-- changed, and written whole under the package's mutex. The file is the state: `none` while it does
-- not exist.
pub mod Laws
use router_docker.Prelude.Exec.{Exec, continue, ◌>>=◌, lift}
use router_docker.Prelude.{Bool, Option, none, some, if◌then◌else◌, Result, ok, err, io}

-- The encoder of the value, and how the system answers. `C` is what a file can hold.
pub record Codec (T C : Type 0) : Type 0 where
  pub marshal : T → C
  pub unmarshal : C → Option T
  pub read_ok : Bool
  pub write_ok : Bool

abbrev pub decoded {ℓ} : {T : Type ℓ} → Option T → Result T
decoded none = err io
decoded (some x) = ok x

module _ {T C : Type 0} (b : Codec T C) where
  -- `os.ReadFile` and the decoder, with the value of a missing file
  unfoldable pub read_from : T → Option C → Result T
  read_from missing none = ok missing
  read_from missing (some content) = if b.read_ok then decoded (b.unmarshal content) else err io

  unfoldable pub load : T → Exec (Option C) T
  load missing s = (read_from missing s, s)

  -- `atomicfile.Write`: the old content stays if any step fails
  unfoldable pub save : T → Exec (Option C) (Unit {0})
  save x s = if b.write_ok then (ok tt, some (b.marshal x)) else (err io, s)

  -- load, change or refuse, save
  unfoldable pub edit : T → (T → Result T) → Exec (Option C) (Unit {0})
  unfolding load save
  edit missing change = do x ← load missing; y ← lift (change x); save y
