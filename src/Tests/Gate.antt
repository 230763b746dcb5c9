-- ===== src/Tests/Gate.antt =====
-- The password gate, on a machine whose codecs shift every byte out of the reach of the separators.
use router_docker.Prelude.{
  ℕ, zero, suc, ◌+◌, ◌-◌, ◌*◌, ◌/◌, ◌^◌, ◌<◌, ◌≡◌, ◌⊎◌, refl, ap, true, false, Option, none, some,
  [], ◌∷◌, Result, ok, err, Error, rate_limit, arith, length, if◌then◌else◌, min, ltb, is_empty,
  leb,
}
use router_docker.Text.{Bytes, codes, equal, is_some}
use router_docker.Text.Decimal.{pos}
use router_docker.Text.Lines.{lacks}
use router_docker.AuthGate.Attempts.{
  AttemptState, Attempts, rate_limited, lockout_base, lockout_max, backoff_of,
}
use router_docker.AuthGate.Attempts.Backoff.{backoff_of-eq}
use router_docker.AuthGate.Password.{
  Codec, IsCodec, hash_password, verify_password, verify_password-hash_password,
}
use router_docker.AuthGate.Token.{
  Signing, issue_token, mint_token, refresh_cookie, unlocked_until, second, session_ttl,
  max_session_lifetime,
}
use router_docker.AuthGate.Token.Mint.{IsSigning}
use router_docker.AuthGate.Token.Session.{
  Session, typed, slid, Session-unlocked_until, Session-bounded,
}
use router_docker.AuthGate.Gate.{
  Machine, Gate, served, check_unlock, current_hash, configured, setup_password, try_unlock,
  require_password, normalize_setup_token,
}
use router_docker.AuthGate.Gate.Setup.{
  IsMachine, setup_password-cases, setup_password-served, stored_first,
}
use router_docker.AuthGate.Gate.Lockout.{record_all, rate_limited-record_all, try_unlock-throttled}

shifted : Bytes → Bytes
shifted [] = []
shifted (c ∷ s) = (c + 60) ∷ shifted s

unshifted : Bytes → Bytes
unshifted [] = []
unshifted (c ∷ s) = (c - 60) ∷ unshifted s

unshifted-shifted : (s : Bytes) → some (unshifted (shifted s)) ≡ some s
unfolding shifted unshifted
unshifted-shifted s = ap some (back s)
  where
    back : (s : Bytes) → unshifted (shifted s) ≡ s
    back [] = refl
    back (c ∷ s) = ground (arith, back s)

shifted-lacks : (sep : ℕ) (s : Bytes) → sep < 60 → lacks sep (shifted s) ≡ true
unfolding shifted lacks
shifted-lacks sep [] h = refl
shifted-lacks sep (c ∷ s) h = ground (arith, shifted-lacks sep s h)

filled : ℕ → Bytes → Bytes
filled zero p = []
filled (suc n) [] = 0 ∷ filled n []
filled (suc n) (c ∷ p) = c ∷ filled n p

length-filled : (n : ℕ) (p : Bytes) → length (filled n p) ≡ n
unfolding filled
length-filled zero p = refl
length-filled (suc n) [] = ap suc (length-filled n [])
length-filled (suc n) (c ∷ p) = ap suc (length-filled n p)

abbrev codec : Codec
codec = record {
  id_key = λ p _ _ _ _ n. filled n p;
  encode = shifted;
  decode = λ s. some (unshifted s);
  scan_version = λ _. some 19;
  scan_params = λ _. some (65536, 3, 2);
}

abbrev codec-IsCodec : IsCodec codec
codec-IsCodec = record {
  decode-encode = unshifted-shifted;
  encode-lacks = λ s. shifted-lacks b'$' s (omega arith);
  version_scans = refl;
  params_scan = refl;
  key_length = λ p _ _ _ _ n. length-filled n p;
}

abbrev signing : Signing
signing = record { sign = λ p. 7 ∷ p; encode = shifted; decode = λ s. some (unshifted s) }

abbrev signing-IsSigning : IsSigning signing
signing-IsSigning = record {
  decode-encode = unshifted-shifted;
  encode-lacks = λ s. shifted-lacks b'.' s (omega arith);
}

abbrev machine : Machine
machine = record {
  codec = codec;
  signing = signing;
  marshal = λ h. h;
  unmarshal = λ h. some h;
  write_ok = true;
}

abbrev machine-IsMachine : IsMachine machine
machine-IsMachine = record {
  codec = codec-IsCodec;
  signing = signing-IsSigning;
  unmarshal-marshal = λ _. refl;
}

abbrev no_attempts : Attempts
no_attempts _ = none

abbrev fresh_gate : Gate
fresh_gate = record {
  env_hash = [];
  store_path = codes "/data/auth.json";
  stored = none;
  attempts = no_attempts;
  setup_token = codes "c0ffee";
  token_announced = true;
}

abbrev secret : Bytes
secret = codes "hunter2"

abbrev wrong : Bytes
wrong = codes "hunter3"

abbrev key : Bytes
key = codes "10.0.0.9"

-- a time of day
abbrev noon : ℕ
noon = 1000000 * second

backoff_of-eq_example : backoff_of 7 ≡ min (lockout_base * 2 ^ 2) lockout_max
backoff_of-eq_example = backoff_of-eq 7

rate_limited-record_all_example :
    rate_limited 60 key (record_all key (50 ∷ 40 ∷ 30 ∷ 20 ∷ 10 ∷ []) no_attempts) ≡ (
      let n : ℕ = 5 in
      let until = 50 + min (lockout_base * 2 ^ (n - 5)) lockout_max in
      if leb 5 n then (if ltb 60 until then some (until - 60) else none) else none)
rate_limited-record_all_example =
    rate_limited-record_all 60 50 key (40 ∷ 30 ∷ 20 ∷ 10 ∷ []) no_attempts refl (omega arith)

verify_password-hash_password_example :
    verify_password codec true wrong (hash_password codec (codes "salt") secret)
    ≡ ok (
        equal
          (codec.id_key secret (codes "salt") 3 (64 * 1024) 2 32)
          (codec.id_key wrong (codes "salt") 3 (64 * 1024) 2 32))
verify_password-hash_password_example =
    verify_password-hash_password codec (codes "salt") secret wrong codec-IsCodec

-- eight minutes on, the cookie is replaced
slid_at :
    Session signing noon (mint_token signing (pos 1000000) (pos 1000480)) (noon + 480 * second)
unfolding refresh_cookie issue_token mint_token shifted unshifted
slid_at = slid typed (omega arith) refl

Session-unlocked_until_example :
    unlocked_until signing
      (noon + 500 * second)
      (some (mint_token signing (pos 1000000) (pos 1000480)))
    ≡ (let deadline =
          min
            ((noon + 480 * second) / second + session_ttl)
            (noon / second + max_session_lifetime) in
        if ltb (noon + 500 * second) (deadline * second) then some (pos deadline) else none)
Session-unlocked_until_example =
    Session-unlocked_until signing signing-IsSigning (omega arith) (omega arith) slid_at

still_unlocked :
    is_some (
      unlocked_until signing
        (noon + 500 * second)
        (some (mint_token signing (pos 1000000) (pos 1000480))))
    ≡ true
still_unlocked = ap is_some Session-unlocked_until_example

Session-bounded_example :
    (noon + 500 * second < noon + 12 * 60 * 60 * second)
    × (noon + 500 * second < noon + 480 * second + 15 * 60 * second)
Session-bounded_example =
    Session-bounded signing signing-IsSigning (omega arith) (omega arith) slid_at still_unlocked

setup_password-cases_example :
    ((x : Error) × (setup_password machine
          (codes "salt")
          (codes "next")
          (codes " C0FFEE ")
          secret
          fresh_gate
        ≡ (err x, fresh_gate)))
    ⊎ ((setup_password machine (codes "salt") (codes "next") (codes " C0FFEE ") secret fresh_gate
          ≡ (ok tt, stored_first machine (codes "salt") (codes "next") secret fresh_gate))
        × (configured machine fresh_gate ≡ false)
        × (is_empty fresh_gate.store_path ≡ false)
        × (normalize_setup_token machine (codes " C0FFEE ") ≡ fresh_gate.setup_token))
setup_password-cases_example =
    setup_password-cases machine (codes "salt") (codes "next") (codes " C0FFEE ") secret fresh_gate

set_up :
    (setup_password machine (codes "salt") (codes "next") (codes " C0FFEE ") secret fresh_gate).0
    ≡ ok tt
unfolding setup_password configured
set_up = refl

setup_password-served_example :
    (let after : Gate =
        (setup_password machine
          (codes "salt")
          (codes "next")
          (codes " C0FFEE ")
          secret
          fresh_gate).1 in
      let unlocked : Result (Option Bytes) × Gate = try_unlock machine 5 9 true key secret after in
      (cookie : Bytes) × (unlocked.0 ≡ ok (some cookie))
      × (r : Option Bytes) × (require_password machine 10 (some cookie) unlocked.1 ≡ served r))
unfolding rate_limited
setup_password-served_example =
    setup_password-served machine (codes "salt") (codes "next") (codes " C0FFEE ") secret key 5 9 10
      fresh_gate machine-IsMachine set_up refl (omega arith) (omega arith) (omega arith)

abbrev four_failures : AttemptState
four_failures = record { failures = 4; locked_until = 0 }

abbrev guessed_gate : Gate
guessed_gate = record fresh_gate {
  stored = some (hash_password codec (codes "salt") secret);
  attempts = λ k. some four_failures;
}

guessed_wrong : (try_unlock machine 5 9 true key wrong guessed_gate).0 ≡ ok none
unfolding try_unlock current_hash check_unlock rate_limited verify_password hash_password shifted
    unshifted filled
guessed_wrong = refl

has_password : is_empty (current_hash machine guessed_gate) ≡ false
unfolding current_hash hash_password
has_password = refl

try_unlock-throttled_example :
    (let g2 : Gate = (try_unlock machine 5 9 true key wrong guessed_gate).1 in
      try_unlock machine 10 11 true key secret g2 ≡ (err rate_limit, g2))
try_unlock-throttled_example =
    try_unlock-throttled machine 5 9 10 11 true true key wrong secret guessed_gate four_failures
      has_password refl (omega arith) (omega arith) guessed_wrong (omega arith)
