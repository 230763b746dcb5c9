-- ===== src/AuthGate/Token.antt =====
-- backend/internal/authgate/gate.go: the signed unlock token. A time is a count of nanoseconds
-- since 1970; the times in a token are whole seconds.
pub mod Mint
pub mod Session
use mathlib.Core.Option
use router_docker.Prelude.Maybe.{◌>>=◌, ◌>>◌, check}
use router_docker.Prelude.{
  ℕ, suc, ◌+◌, ◌-◌, ◌*◌, ◌/◌, ◌^◌, ◌≡◌, Bool, true, false, not, ◌&&◌, ◌||◌, Option, none, some,
  List, [], ◌∷◌, ◌++◌, ltb, leb, if◌then◌else◌,
}
use router_docker.Text.{Bytes, codes, equal, cut}
use router_docker.Text.Decimal.{ℤ, pos, negsuc, itoa}
use router_docker.Text.Integer.{parse_int}

-- What gate.go takes from elsewhere: HMAC-SHA256 under the gate's secret, and base64.
pub record Signing : Type 0 where
  pub sign : Bytes → Bytes
  -- `base64.RawURLEncoding`
  pub encode : Bytes → Bytes
  pub decode : Bytes → Option Bytes

-- nanoseconds in a second
abbrev pub second : ℕ
second = 10 ^ 9

-- `sessionTTL`, `maxSessionLifetime` and `refreshThreshold`, in seconds
abbrev pub session_ttl : ℕ
session_ttl = 15 * 60

abbrev pub max_session_lifetime : ℕ
max_session_lifetime = 12 * 60 * 60

abbrev pub refresh_threshold : ℕ
refresh_threshold = 450

-- `t.After(now)` and `now.Before(t)`, of a time in seconds
unfoldable pub is_after : ℤ → ℕ → Bool
is_after (pos t) now = ltb now (t * second)
is_after (negsuc n) now = false

unfoldable pub int_ltb : ℤ → ℤ → Bool
int_ltb (pos a) (pos b) = ltb a b
int_ltb (pos a) (negsuc b) = false
int_ltb (negsuc a) (pos b) = true
int_ltb (negsuc a) (negsuc b) = ltb b a

unfoldable pub add_seconds : ℤ → ℕ → ℤ
add_seconds (pos t) d = pos (t + d)
add_seconds (negsuc n) d = if ltb n d then pos (d - suc n) else negsuc (n - d)

-- `now.Sub(t)`, in nanoseconds, of a time that is not after now
unfoldable pub since : ℕ → ℤ → ℕ
since now (pos t) = now - t * second
since now (negsuc n) = now + suc n * second

module _ (sg : Signing) where
  -- the payload holds `origin.Unix()` and `refreshed.Unix()`
  unfoldable pub payload_of : ℤ → ℤ → Bytes
  unfolding itoa
  payload_of origin refreshed = itoa origin ++ (codes ":" ++ itoa refreshed)

  unfoldable pub mint_token : ℤ → ℤ → Bytes
  unfolding payload_of
  mint_token origin refreshed =
      let payload = payload_of origin refreshed in
      sg.encode payload ++ (codes "." ++ sg.encode (sg.sign payload))

  unfoldable pub issue_token : ℕ → Bytes
  unfolding mint_token
  issue_token now = mint_token (pos (now / second)) (pos (now / second))

  -- the two numbers of a payload, the second one being the first where there is no colon
  unfoldable pub payload_times : Bytes → Option (ℤ × ℤ)
  unfolding cut parse_int
  payload_times payload = do
    let parts = Option.get_or (cut b':' payload) (payload, payload)
    origin ← parse_int parts.0
    refreshed ← parse_int parts.1
    some (origin, refreshed)

  unfoldable pub is_consistent : ℕ → ℤ × ℤ → Bool
  unfolding is_after int_ltb
  is_consistent now (origin, refreshed) =
      not (is_after origin now || is_after refreshed now || int_ltb refreshed origin)

  -- what the cookie says, if its signature holds
  unfoldable pub signed_payload : Bytes → Option Bytes
  unfolding cut equal
  signed_payload cookie = do
    parts ← cut b'.' cookie
    payload ← sg.decode parts.0
    given ← sg.decode parts.1
    check (equal given (sg.sign payload))
    some payload

  -- `tokenTimes`; `none` for a request with no cookie
  unfoldable pub token_times : ℕ → Option Bytes → Option (ℤ × ℤ)
  unfolding signed_payload payload_times is_consistent
  token_times now cookie = do
    value ← cookie
    payload ← signed_payload value
    times ← payload_times payload
    check (is_consistent now times)
    some times

  unfoldable pub deadline_of : ℤ × ℤ → ℤ
  unfolding add_seconds int_ltb
  deadline_of (origin, refreshed) =
      let idle = add_seconds refreshed session_ttl in
      let hard = add_seconds origin max_session_lifetime in if int_ltb hard idle then hard else idle

  unfoldable pub unlocked_until : ℕ → Option Bytes → Option ℤ
  unfolding token_times deadline_of is_after
  unlocked_until now cookie = do
    times ← token_times now cookie
    check (is_after (deadline_of times) now)
    some (deadline_of times)

  unfoldable pub is_old : ℕ → ℤ → Bool
  unfolding since
  is_old now refreshed = leb (refresh_threshold * second) (since now refreshed)

  -- the cookie that `refreshCookie` sets, if it sets one
  unfoldable pub refresh_cookie : ℕ → Option Bytes → Option Bytes
  unfolding token_times mint_token is_old
  refresh_cookie now cookie = do
    times ← token_times now cookie
    check (is_old now times.1)
    some (mint_token times.0 (pos (now / second)))
