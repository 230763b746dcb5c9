-- ===== src/AuthGate/Attempts.antt =====
-- backend/internal/authgate/gate.go: the lockout of a key after wrong passwords. A time is a count
-- of nanoseconds; a duration is an `int64`, kept with its wrap-around.
pub mod Backoff
use mathlib.Core.Option
use router_docker.Prelude.{
  ℕ, zero, suc, ◌+◌, ◌-◌, ◌*◌, ◌^◌, ◌%◌, Bool, true, false, ◌&&◌, Option, none, some, ltb, leb,
  if◌then◌else◌,
}
use router_docker.Text.{Bytes, equal}

pub record AttemptState : Type 0 where
  pub failures : ℕ
  pub locked_until : ℕ

-- `map[string]*attemptState`
abbrev pub Attempts : Type 0
Attempts = Bytes → Option AttemptState

unfoldable pub assign : Bytes → Option AttemptState → Attempts → Attempts
unfolding equal
assign key st attempts k = if equal key k then st else attempts k

abbrev pub max_failures_before_lockout : ℕ
max_failures_before_lockout = 5

abbrev pub lockout_base : ℕ
lockout_base = 5 * 10 ^ 9

abbrev pub lockout_max : ℕ
lockout_max = 300 * 10 ^ 9

-- a signed comparison of two `int64`s in two's complement
unfoldable pub int64_ltb : ℕ → ℕ → Bool
int64_ltb a b = ltb ((a + 2 ^ 63) % 2 ^ 64) ((b + 2 ^ 63) % 2 ^ 64)

-- the loop of `recordFailure`, with the number of turns it has left
unfoldable pub doubled : ℕ → ℕ → ℕ
unfolding int64_ltb
doubled zero backoff = backoff
doubled (suc n) backoff =
    let rest = doubled n (backoff * 2 % 2 ^ 64) in
    if int64_ltb backoff lockout_max then rest else backoff

unfoldable pub backoff_of : ℕ → ℕ
unfolding doubled int64_ltb
backoff_of failures =
    let backoff = doubled (failures - max_failures_before_lockout) lockout_base in
    if int64_ltb backoff lockout_max then backoff else lockout_max

-- how long the key is still locked out
unfoldable pub rate_limited : ℕ → Bytes → Attempts → Option ℕ
rate_limited now key attempts = elim (attempts key) [
  | none ↦ none
  | some st ↦ if ltb now st.locked_until then some (st.locked_until - now) else none
]

abbrev pub fresh_state : AttemptState
fresh_state = record { failures = 0; locked_until = 0 }

unfoldable pub failed_once_more : ℕ → AttemptState → AttemptState
failed_once_more now st =
    let failures = (st.failures + 1) % 2 ^ 64 in
    if leb max_failures_before_lockout failures
    then record { failures = failures; locked_until = now + backoff_of failures }
    else record { failures = failures; locked_until = st.locked_until }

unfoldable pub record_failure : ℕ → Bytes → Attempts → Attempts
unfolding assign
record_failure now key attempts =
    assign key (some (failed_once_more now (Option.get_or (attempts key) fresh_state))) attempts

unfoldable pub record_success : Bytes → Attempts → Attempts
unfolding assign
record_success key attempts = assign key none attempts
