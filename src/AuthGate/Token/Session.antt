-- ===== src/AuthGate/Token/Session.antt =====
-- How long a session can last.
use router_docker.Prelude.Maybe.{◌>>◌, check}
use router_docker.Prelude.{
  ℕ, ◌+◌, ◌*◌, ◌/◌, ◌^◌, ◌≤◌, ◌<◌, ◌≡◌, refl, sym, Bool, true, false, none, some, arith, ltb,
  if◌then◌else◌, subst, min,
}
use router_docker.Text.{Bytes, is_some}
use router_docker.Text.Decimal.{ℤ, pos}
use router_docker.AuthGate.Token.{
  Signing, second, session_ttl, max_session_lifetime, is_after, int_ltb, add_seconds, mint_token,
  issue_token, deadline_of, unlocked_until, is_old, refresh_cookie,
}
use router_docker.AuthGate.Token.Mint.{IsSigning, token_times-mint_token}

if_some : (b : Bool) (x : ℤ) → is_some (if b then some x else none) ≡ true → b ≡ true
if_some true x h = refl
if_some false x h = cc

module _ (sg : Signing) where
  -- The cookies of one session, with the time at which each was set: the password was typed at
  -- `start`, and each request may replace the cookie.
  pub data Session (start : ℕ) : Bytes → ℕ → Type 0 where
    typed : Session start (issue_token sg start) start
    slid :
        {cookie next : Bytes} {t now : ℕ}
        → Session start cookie t
        → t ≤ now
        → refresh_cookie sg now (some cookie) ≡ some next
        → Session start next now

  checked : (b : Bool) (x y : Bytes) → (check b >> some x) ≡ some y → y ≡ x
  checked true x y h = ground arith
  checked false x y h = cc

  refresh_cookie-mint_token :
      (o r now : ℕ) (next : Bytes)
      → IsSigning sg
      → o ≤ r
      → r * second ≤ now
      → r < 2 ^ 63
      → refresh_cookie sg now (some (mint_token sg (pos o) (pos r))) ≡ some next
      → next ≡ mint_token sg (pos o) (pos (now / second))
  unfolding refresh_cookie
  refresh_cookie-mint_token o r now next h le past small e =
      checked (is_old sg now (pos r)) _ next
        (rw (token_times-mint_token sg o r now h le past small) at e)

  -- Every cookie of the session still carries the time at which the password was typed.
  pub Session-origin :
      {start t : ℕ} {cookie : Bytes}
      → IsSigning sg
      → t < 2 ^ 63
      → Session start cookie t
      → (cookie ≡ mint_token sg (pos (start / second)) (pos (t / second))) × (start ≤ t)
  Session-origin {start} h small typed = (unfold issue_token in refl, omega arith)
  Session-origin {start} {t = now} h small (slid {cookie} {next} {t} s le e) =
      let (same, begun) = Session-origin h (omega arith) s in
      (
        refresh_cookie-mint_token (start / second) (t / second) now next h (omega arith)
            (omega arith) (omega arith)
            (subst (λ (c : Bytes). refresh_cookie sg now (some c) ≡ some next) same e),
        omega arith,
      )

  deadline-eq :
      (o r : ℕ)
      → deadline_of sg (pos o, pos r) ≡ pos (min (r + session_ttl) (o + max_session_lifetime))
  unfolding deadline_of add_seconds int_ltb
  deadline-eq o r = ground arith

  unlocked_until-mint_token :
      (o r now : ℕ)
      → IsSigning sg
      → o ≤ r
      → r * second ≤ now
      → r < 2 ^ 63
      → unlocked_until sg now (some (mint_token sg (pos o) (pos r))) ≡ (
          let deadline = min (r + session_ttl) (o + max_session_lifetime) in
          if ltb now (deadline * second) then some (pos deadline) else none)
  unfolding unlocked_until is_after
  unlocked_until-mint_token o r now h le past small =
      rw (token_times-mint_token sg o r now h le past small) (rw (deadline-eq o r) (ground arith))

  -- In a session that began when the password was typed at `start` and whose cookie was last set
  -- at `t`, by whatever chain of requests, the cookie unlocks the gate at a later time exactly
  -- until fifteen minutes behind the second of `t`, or twelve hours behind the second of `start`,
  -- whichever is sooner; where signing and base64 behave as documented and `t` is below 2^63
  -- nanoseconds.
  pub Session-unlocked_until :
      {start t now : ℕ} {cookie : Bytes}
      → IsSigning sg
      → t < 2 ^ 63
      → t ≤ now
      → Session start cookie t
      → unlocked_until sg now (some cookie) ≡ (
          let deadline = min (t / second + session_ttl) (start / second + max_session_lifetime) in
          if ltb now (deadline * second) then some (pos deadline) else none)
  Session-unlocked_until {start} {t} {now} {cookie} h small le s =
      let (same, begun) = Session-origin h small s in
      subst
        (λ (c : Bytes). unlocked_until sg now (some c) ≡ (
          let deadline = min (t / second + session_ttl) (start / second + max_session_lifetime) in
          if ltb now (deadline * second) then some (pos deadline) else none))
        (sym same)
        (unlocked_until-mint_token (start / second) (t / second) now h (omega arith) (omega arith)
          (omega arith))

  -- No chain of requests keeps a session unlocked beyond twelve hours from the time at which the
  -- password was typed, or beyond fifteen minutes from the time at which its cookie was last set;
  -- where signing and base64 behave as documented and that time is below 2^63 nanoseconds.
  pub Session-bounded :
      {start t now : ℕ} {cookie : Bytes}
      → IsSigning sg
      → t < 2 ^ 63
      → t ≤ now
      → Session start cookie t
      → is_some (unlocked_until sg now (some cookie)) ≡ true
      → (now < start + 12 * 60 * 60 * second) × (now < t + 15 * 60 * second)
  Session-bounded {start} {t} {now} {cookie} h small le s unlocked =
      let e = Session-unlocked_until h small le s in
      let deadline = min (t / second + session_ttl) (start / second + max_session_lifetime) in
      let early = if_some (ltb now (deadline * second)) (pos deadline) (rw e at unlocked) in
      ground arith
