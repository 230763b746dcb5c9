-- ===== src/NetGate/Forwards/Unique.antt =====
-- Lists of forwards with distinct host ports.
use router_docker.Prelude.{
  ◌≡◌, refl, inl, inr, Bool, true, false, not, ◌&&◌, ◌||◌, List, [], ◌∷◌, ◌++◌, ok, arith, All,
  Bool-cases,
}
use router_docker.Text.{Bytes}
use router_docker.Text.Decimal.{ℤ, int_eq}
use router_docker.NetGate.Config.{Forward}
use router_docker.NetGate.Forwards.{check_forward, has_port, without_port}

-- no two forwards share a host port
unfoldable pub unique_ports : List Forward → Bool
unique_ports [] = true
unique_ports (f ∷ fs) = not (has_port f.host_port fs) && unique_ports fs

-- Every forward passes the checks of `AddForward`, and the host ports are distinct.
pub record IsValid (allowed : List Bytes) (fs : List Forward) : Type 0 where
  pub checked : All (λ f. check_forward allowed f ≡ ok tt) fs
  pub distinct : unique_ports fs ≡ true

pub int_eq_refl : (a : ℤ) → int_eq a a ≡ true
unfolding int_eq
int_eq_refl a = ground arith

pub int_eq_sym : (a b : ℤ) → int_eq a b ≡ int_eq b a
unfolding int_eq
int_eq_sym a b = ground arith

pub has_port-append :
    (p : ℤ) (fs : List Forward) (f : Forward)
    → has_port p (fs ++ f ∷ []) ≡ (has_port p fs || int_eq f.host_port p)
unfolding has_port
has_port-append p [] f = ground arith
has_port-append p (e ∷ fs) f = ground (arith, has_port-append p fs f)

pub unique_ports-append :
    (fs : List Forward) (f : Forward)
    → unique_ports fs ≡ true
    → has_port f.host_port fs ≡ false
    → unique_ports (fs ++ f ∷ []) ≡ true
unfolding unique_ports has_port
unique_ports-append [] f u h = refl
unique_ports-append (e ∷ fs) f u h = ground (
  arith,
  has_port-append e.host_port fs f,
  unique_ports-append fs f,
  int_eq_sym e.host_port f.host_port,
)

pub has_port-without_port :
    (p q : ℤ) (fs : List Forward) → has_port q fs ≡ false → has_port q (without_port p fs) ≡ false
unfolding has_port without_port
has_port-without_port p q [] h = refl
has_port-without_port p q (e ∷ fs) h = ground (arith, has_port-without_port p q fs)

pub unique_ports-without_port :
    (p : ℤ) (fs : List Forward) → unique_ports fs ≡ true → unique_ports (without_port p fs) ≡ true
unfolding unique_ports without_port
unique_ports-without_port p [] u = refl
unique_ports-without_port p (e ∷ fs) u =
    ground (arith, has_port-without_port p e.host_port fs, unique_ports-without_port p fs)

pub All-without_port :
    (P : Forward → Type 0) (p : ℤ) (fs : List Forward) → All P fs → All P (without_port p fs)
unfolding without_port
All-without_port P p [] a = tt
All-without_port P p (e ∷ fs) a = elim (Bool-cases (int_eq e.host_port p)) [
  | inl same ↦ rw same (All-without_port P p fs a.1)
  | inr other ↦ rw other (a.0, All-without_port P p fs a.1)
]

-- deleting what was added at the end
pub without_port-append :
    (fs : List Forward) (f : Forward)
    → has_port f.host_port fs ≡ false
    → without_port f.host_port (fs ++ f ∷ []) ≡ fs
unfolding without_port has_port
without_port-append [] f h = rw (int_eq_refl f.host_port) refl
without_port-append (e ∷ fs) f h = ground (arith, without_port-append fs f)
