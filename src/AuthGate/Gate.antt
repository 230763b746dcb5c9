-- ===== src/AuthGate/Gate.antt =====
-- backend/internal/authgate/gate.go and store.go: the gate and its operations. `lockKey` and the
-- mutexes let one call on a key run at a time, so a call is one step here.
pub mod Setup
pub mod Lockout
use mathlib.Core.Option
use router_docker.Prelude.Exec.{Exec, continue, ◌>>=◌, ◌>>◌, pure, fail, lift, require}
use router_docker.Prelude.{
  ℕ, ◌≡◌, Bool, true, false, not, Option, none, some, List, [], ◌∷◌, if◌then◌else◌, is_empty, Error,
  Result, ok, err, io, no_store_path, already_configured, not_configured, env_pinned,
  wrong_password, bad_setup_token, rate_limit,
}
use router_docker.Text.{Bytes, equal, is_some, to_lower, trim_space}
use router_docker.AuthGate.Attempts.{Attempts, rate_limited, record_failure, record_success}
use router_docker.AuthGate.Password.{Codec, hash_password, verify_password}
use router_docker.AuthGate.Token.{Signing, issue_token, unlocked_until, refresh_cookie}

-- What the gate calls: password hashing, signing, JSON for the stored hash (`json.Marshal` of a
-- `storedHash`, and the `hash` field it reads back), and whether writing the file works.
pub record Machine : Type 0 where
  pub codec : Codec
  pub signing : Signing
  pub marshal : Bytes → Bytes
  pub unmarshal : Bytes → Option Bytes
  pub write_ok : Bool

pub record Gate : Type 0 where
  pub env_hash : Bytes
  pub store_path : Bytes
  -- what the file at `store_path` holds; `none` when it is missing or cannot be read
  pub stored : Option Bytes
  pub attempts : Attempts
  pub setup_token : Bytes
  pub token_announced : Bool

pub data Source : Type 0 where
  env file unset : Source

-- What `RequirePassword` answers: 503, 401, or the route's own answer, with the cookie that it
-- sets.
pub data Answer : Type 0 where
  unavailable unauthorized : Answer
  served : Option Bytes → Answer

module _ (m : Machine) where
  unfoldable pub read_stored_hash : Option Bytes → Bytes
  read_stored_hash none = []
  read_stored_hash (some data_read) = Option.get_or (m.unmarshal data_read) []

  -- a temporary file and a rename: the old content stays if any step fails
  unfoldable pub write_stored_hash : Bytes → Exec Gate (Unit {0})
  write_stored_hash hash g =
      if m.write_ok then (ok tt, record g { stored = some (m.marshal hash) }) else (err io, g)

  unfoldable pub current_hash : Gate → Bytes
  unfolding read_stored_hash
  current_hash g =
      if not (is_empty g.env_hash)
      then g.env_hash
      else if is_empty g.store_path
      then []
      else read_stored_hash g.stored

  unfoldable pub configured : Gate → Bool
  unfolding current_hash
  configured g = not (is_empty (current_hash g))

  unfoldable pub source : Gate → Source
  unfolding current_hash
  source g =
      if not (is_empty g.env_hash)
      then env
      else if not (is_empty (current_hash g))
      then file
      else unset

  unfoldable pub normalize_setup_token : Bytes → Bytes
  unfolding to_lower trim_space
  normalize_setup_token t = to_lower (trim_space t)

  -- the token that is announced, if one is
  unfoldable pub announce_setup_token : Gate → Option Bytes × Gate
  announce_setup_token g =
      if configured g
      then (none, g)
      else if g.token_announced
      then (none, g)
      else (some g.setup_token, record g { token_announced = true })

  abbrev rotate : Bytes → Exec Gate (Unit {0})
  rotate fresh g = (ok tt, record g { setup_token = fresh; token_announced = false })

  -- with the salt and the next token that are drawn
  unfoldable pub setup_password : Bytes → Bytes → Bytes → Bytes → Exec Gate (Unit {0})
  unfolding normalize_setup_token equal write_stored_hash
  setup_password salt fresh token plaintext g =
      (do
        require (not (is_empty g.store_path)) no_store_path
        require (not (configured g)) already_configured
        require (equal (normalize_setup_token token) g.setup_token) bad_setup_token
        write_stored_hash (hash_password m.codec salt plaintext)
        rotate fresh)
        g

  abbrev pub note_failure : ℕ → Bytes → Gate → Gate
  note_failure later key g = record g { attempts = record_failure later key g.attempts }

  abbrev pub note_success : Bytes → Gate → Gate
  note_success key g = record g { attempts = record_success key g.attempts }

  -- behind `VerifyPassword`
  unfoldable pub finish_change : ℕ → Bytes → Bytes → Bytes → Bool → Exec Gate (Unit {0})
  unfolding record_failure record_success write_stored_hash
  finish_change later key salt new true g =
      write_stored_hash (hash_password m.codec salt new) (note_success key g)
  finish_change later key salt new false g = (err wrong_password, note_failure later key g)

  -- `now` is read when the lockout is checked, `later` behind the verification
  unfoldable pub change_password :
      ℕ → ℕ → Bool → Bytes → Bytes → Bytes → Bytes → Exec Gate (Unit {0})
  unfolding current_hash rate_limited finish_change
  change_password now later slot salt key current new g =
      (do
        require (is_empty g.env_hash) env_pinned
        require (not (is_empty (current_hash g))) not_configured
        require (not (is_some (rate_limited now key g.attempts))) rate_limit
        matched ← lift (verify_password m.codec slot current (current_hash g))
        finish_change later key salt new matched)
        g

  unfoldable pub finish_unlock : ℕ → Bytes → Bool → Exec Gate (Option Bytes)
  unfolding record_failure record_success issue_token
  finish_unlock later key true g = (ok (some (issue_token m.signing later)), note_success key g)
  finish_unlock later key false g = (ok none, note_failure later key g)

  -- behind the test for a configured password
  unfoldable pub check_unlock : ℕ → ℕ → Bool → Bytes → Bytes → Exec Gate (Option Bytes)
  unfolding current_hash rate_limited finish_unlock
  check_unlock now later slot key plaintext g =
      (do
        require (not (is_some (rate_limited now key g.attempts))) rate_limit
        matched ← lift (verify_password m.codec slot plaintext (current_hash g))
        finish_unlock later key matched)
        g

  unfoldable pub try_unlock : ℕ → ℕ → Bool → Bytes → Bytes → Exec Gate (Option Bytes)
  unfolding current_hash check_unlock
  try_unlock now later slot key plaintext g =
      if is_empty (current_hash g)
      then (ok none, g)
      else check_unlock now later slot key plaintext g

  unfoldable pub require_password : ℕ → Option Bytes → Gate → Answer
  require_password now cookie g =
      if not (configured g)
      then unavailable
      else if not (is_some (unlocked_until m.signing now cookie))
      then unauthorized
      else served (refresh_cookie m.signing now cookie)
