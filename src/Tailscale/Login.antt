-- ===== src/Tailscale/Login.antt =====
-- backend/internal/tailscale/login.go: the manager of the `tailscale up` process. A process is known
-- by a number, the system gives a fresh one to each.
pub mod Reach
use router_docker.Prelude.{
  ℕ, ◌+◌, Bool, true, false, Option, none, some, List, [], ◌∷◌, ◌++◌, ◌==◌, is_empty, if◌then◌else◌,
  Result, ok, err, io,
}
use router_docker.Text.{Bytes, codes}

pub record LoginManager : Type 0 where
  pub cmd : Option ℕ
  pub running : Bool

-- `NewLoginManager`
abbrev pub new_login_manager : LoginManager
new_login_manager = record { cmd = none; running = false }

unfoldable pub login_args : Bytes → Bytes → Bool → List Bytes
login_args server hostname force_reauth =
    codes "up"
    ∷ ((if is_empty server then [] else (codes "--login-server=" ++ server) ∷ [])
        ++ ((if is_empty hostname then [] else (codes "--hostname=" ++ hostname) ∷ [])
            ++ (if force_reauth then codes "--force-reauth" ∷ [] else [])))

-- What `Start` does: its error, the arguments of the process that it spawned, and the manager
-- after. The system answers to the spawning by the new process, or not at all.
unfoldable pub start :
    Bytes
    → Bytes
    → Bool
    → Option ℕ
    → LoginManager
    → Result (Unit {0}) × Option (ℕ × List Bytes) × LoginManager
unfolding login_args
start server hostname force spawned m = if m.running then (ok tt, none, m) else elim spawned [
  | none ↦ (err io, none, m)
  | some id ↦
      (ok tt, some (id, login_args server hostname force), record { cmd = some id; running = true })
]

is_current : ℕ → Option ℕ → Bool
is_current id none = false
is_current id (some other) = other == id

-- the goroutine of a process, after `cmd.Wait`
unfoldable pub reap : ℕ → LoginManager → LoginManager
unfolding is_current
reap id m = if is_current id m.cmd then record m { running = false } else m

-- the process that `Cancel` kills
unfoldable pub cancel : LoginManager → Option ℕ
cancel m = if m.running then m.cmd else none
