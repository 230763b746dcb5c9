-- ===== src/AuthGate/Gate/Lockout.antt =====
-- Wrong guesses lock a key out.
use mathlib.Core.Option
use router_docker.Prelude.Exec.{continue}
use router_docker.Prelude.{
  ℕ, suc, ◌+◌, ◌-◌, ◌*◌, ◌^◌, ◌%◌, ◌≤◌, ◌<◌, ◌≡◌, refl, ap, Bool, true, false, Option, none, some,
  List, [], ◌∷◌, if◌then◌else◌, is_empty, Result, ok, err, rate_limit, arith, Bool-cases, inl, inr,
  ltb, leb, min, length,
}
use router_docker.Text.{Bytes, is_some}
use router_docker.Text.Laws.{equal_refl}
use router_docker.AuthGate.Attempts.{
  AttemptState, Attempts, fresh_state, assign, lockout_base, lockout_max, backoff_of, rate_limited,
  failed_once_more, record_failure,
}
use router_docker.AuthGate.Attempts.Backoff.{backoff_of-eq}
use router_docker.AuthGate.Password.{verify_password}
use router_docker.AuthGate.Gate.{
  Machine, Gate, current_hash, check_unlock, finish_unlock, try_unlock, note_failure,
}

-- Wrong passwords of one key, the last one first, by their times.
abbrev pub record_all : Bytes → List ℕ → Attempts → Attempts
record_all key [] attempts = attempts
record_all key (t ∷ ts) attempts = record_failure t key (record_all key ts attempts)

-- the state of a key after these failures
abbrev expected : List ℕ → Option AttemptState
expected [] = none
expected (t ∷ ts) =
    let n = suc (length ts) in
    some (record { failures = n; locked_until = if leb 5 n then t + backoff_of n else 0 })

failed_first : (t : ℕ) → some (failed_once_more t fresh_state) ≡ expected (t ∷ [])
unfolding failed_once_more
failed_first t = refl

failed_again :
    (t u : ℕ) (n : ℕ)
    → n < 2 ^ 63
    → failed_once_more t (record { failures = n; locked_until = if leb 5 n then u else 0 })
      ≡ record {
        failures = suc n;
        locked_until = if leb 5 (suc n) then t + backoff_of (suc n) else 0;
      }
unfolding failed_once_more
failed_again t u n h = let exact : (n + 1) % 2 ^ 64 ≡ suc n = omega arith in rw exact (ground arith)

record_failure-at :
    (t : ℕ) (key : Bytes) (attempts : Attempts)
    → record_failure t key attempts key
      ≡ some (failed_once_more t (Option.get_or (attempts key) fresh_state))
unfolding record_failure assign
record_failure-at t key attempts = rw (equal_refl key) refl

record_all-expected :
    (key : Bytes) (ts : List ℕ) (attempts : Attempts)
    → attempts key ≡ none
    → length ts < 2 ^ 63
    → record_all key ts attempts key ≡ expected ts
record_all-expected key [] attempts h small = h
record_all-expected key (t ∷ []) attempts h small =
    rw (record_failure-at t key attempts) (rw h (failed_first t))
record_all-expected key (t ∷ u ∷ us) attempts h small =
    rw (record_failure-at t key (record_all key (u ∷ us) attempts)) (
      rw (record_all-expected key (u ∷ us) attempts h (omega arith)) (
        ap some
          (failed_again t (u + backoff_of (suc (length us))) (suc (length us)) (omega arith))))

-- A key with no failures that then fails at the given times, the last one first, is locked out
-- from the fifth failure on, after each failure for five seconds doubled once per failure beyond
-- the fifth, and for five minutes at most; with fewer failures it is not locked out; for fewer
-- than 2^63 failures.
pub rate_limited-record_all :
    (now t : ℕ) (key : Bytes) (ts : List ℕ) (attempts : Attempts)
    → attempts key ≡ none
    → length (t ∷ ts) < 2 ^ 63
    → rate_limited now key (record_all key (t ∷ ts) attempts) ≡ (
        let n = suc (length ts) in
        let until = t + min (lockout_base * 2 ^ (n - 5)) lockout_max in
        if leb 5 n then (if ltb now until then some (until - now) else none) else none)
unfolding rate_limited
rate_limited-record_all now t key ts attempts h small =
    rw (record_all-expected key (t ∷ ts) attempts h small, rate_limited)
      (rw (← backoff_of-eq (suc (length ts))) (ground arith))

module _ (m : Machine) where
  check_unlock-locked :
      (now later : ℕ) (slot : Bool) (key guess : Bytes) (g : Gate)
      → is_some (rate_limited now key g.attempts) ≡ true
      → check_unlock m now later slot key guess g ≡ (err rate_limit, g)
  unfolding check_unlock
  check_unlock-locked now later slot key guess g e = rw e refl

  -- While a key is locked out, `TryUnlock` refuses every password, the right one too, and neither
  -- checks it nor counts it.
  try_unlock-locked :
      (now later : ℕ) (slot : Bool) (key guess : Bytes) (g : Gate)
      → is_empty (current_hash m g) ≡ false
      → is_some (rate_limited now key g.attempts) ≡ true
      → try_unlock m now later slot key guess g ≡ (err rate_limit, g)
  unfolding try_unlock
  try_unlock-locked now later slot key guess g known e =
      rw known (check_unlock-locked now later slot key guess g e)

  finish-none :
      (later : ℕ) (key : Bytes) (g : Gate) (v : Result Bool)
      → (continue (v, g) (finish_unlock m later key)).0 ≡ ok none
      → (continue (v, g) (finish_unlock m later key)).1 ≡ note_failure m later key g
  unfolding finish_unlock
  finish-none later key g (ok true) e = ground arith
  finish-none later key g (ok false) e = refl
  finish-none later key g (err x) e = cc

  check_unlock-failing :
      (now later : ℕ) (slot : Bool) (key guess : Bytes) (g : Gate)
      → (check_unlock m now later slot key guess g).0 ≡ ok none
      → (check_unlock m now later slot key guess g).1 ≡ note_failure m later key g
  unfolding check_unlock
  check_unlock-failing now later slot key guess g e =
      elim (Bool-cases (is_some (rate_limited now key g.attempts))) [
        | inl locked ↦ absurd (ground (arith, locked))
        | inr free ↦ rw free (
            finish-none later key g (verify_password m.codec slot guess (current_hash m g))
              (rw free at e))
      ]

  -- the lockout that a failure beyond the fourth starts
  failed-rate_limited :
      (now later : ℕ) (key : Bytes) (attempts : Attempts) (st : AttemptState)
      → attempts key ≡ some st
      → 4 ≤ st.failures
      → st.failures < 2 ^ 63
      → now < later + min (lockout_base * 2 ^ (suc st.failures - 5)) lockout_max
      → is_some (rate_limited now key (record_failure later key attempts)) ≡ true
  unfolding rate_limited failed_once_more
  failed-rate_limited now later key attempts st e enough small soon =
      let exact : (st.failures + 1) % 2 ^ 64 ≡ suc st.failures = omega arith in
      let until = rw (← backoff_of-eq (suc st.failures)) at soon in
      rw (record_failure-at later key attempts, rate_limited) (rw e (rw exact (ground arith)))

  try_unlock-failing :
      (now later : ℕ) (slot : Bool) (key guess : Bytes) (g : Gate)
      → is_empty (current_hash m g) ≡ false
      → (try_unlock m now later slot key guess g).0 ≡ ok none
      → (try_unlock m now later slot key guess g).1 ≡ note_failure m later key g
  unfolding try_unlock
  try_unlock-failing now later slot key guess g known wrong =
      rw known (check_unlock-failing now later slot key guess g (rw known at wrong))

  -- When `TryUnlock` answers that a password is wrong, and this is the fifth or a later failure of
  -- the key in a row, then every further `TryUnlock` of the key before the backoff is over is
  -- refused as rate limited, whatever the password, and leaves the gate as it is; for fewer than
  -- 2^63 failures.
  pub try_unlock-throttled :
      (now later again after : ℕ) (slot free : Bool) (key guess other : Bytes) (g : Gate)
      (st : AttemptState)
      → is_empty (current_hash m g) ≡ false
      → g.attempts key ≡ some st
      → 4 ≤ st.failures
      → st.failures < 2 ^ 63
      → (try_unlock m now later slot key guess g).0 ≡ ok none
      → again < later + min (lockout_base * 2 ^ (suc st.failures - 5)) lockout_max
      → (let g2 : Gate = (try_unlock m now later slot key guess g).1 in
          try_unlock m again after free key other g2 ≡ (err rate_limit, g2))
  try_unlock-throttled now later again after slot free key guess other g st known e enough small
        wrong soon =
      let failing : (try_unlock m now later slot key guess g).1 ≡ note_failure m later key g =
        try_unlock-failing now later slot key guess g known wrong in
      rw failing (
        try_unlock-locked again after free key other (note_failure m later key g)
          (unfold current_hash in known)
          (failed-rate_limited again later key g.attempts st e enough small soon))
