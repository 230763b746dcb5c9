-- ===== src/Document/Laws.antt =====
-- What a file holds after an edit.
use mathlib.Core.Option.{some-injective}
use router_docker.Prelude.Exec.{Exec, continue}
use router_docker.Prelude.{
  ◌≡◌, refl, sym, ◌∙◌, inl, inr, Bool, true, Option, none, some, Result, ok, err, Error, arith,
  Bool-cases, Result-split, subst,
}
use router_docker.Document.{Codec, read_from, load, save, edit}

-- what is documented of the encoders: they read back what they write
pub record IsCodec {T C : Type 0} (b : Codec T C) : Type 0 where
  pub unmarshal-marshal : (x : T) → b.unmarshal (b.marshal x) ≡ some x

-- reads and writes that do not fail, too
pub record IsReliable {T C : Type 0} (b : Codec T C) : Type 0 where
  pub codec : IsCodec b
  pub reads : b.read_ok ≡ true
  pub writes : b.write_ok ≡ true

-- the value that a file stands for, whether or not it can be read now
abbrev pub held : {T C : Type 0} → Codec T C → T → Option C → Option T
held b missing none = some missing
held b missing (some content) = b.unmarshal content

-- Whatever value the file stands for has the property.
abbrev pub Holds : {T C : Type 0} → (T → Type 0) → Codec T C → T → Option C → Type 0
Holds {T} P b missing s = (x : T) → held b missing s ≡ some x → P x

-- the same codec, with other answers of the system
abbrev pub answering : {T C : Type 0} → Bool → Bool → Codec T C → Codec T C
answering r w b = record b { read_ok = r; write_ok = w }

pub answering-IsCodec :
    {T C : Type 0} (r w : Bool) (b : Codec T C) → IsCodec b → IsCodec (answering r w b)
answering-IsCodec r w b h = record { unmarshal-marshal = h.unmarshal-marshal }

pub continue_state :
    {S A B : Type 0} (m : Result A × S) (x : B) → (continue m (λ _ s. (ok x, s))).1 ≡ m.1
continue_state (ok a, s) x = refl
continue_state (err e, s) x = refl

-- A check before the rest of an operation: where it fails the file stays.
pub checked-Holds :
    {T C A : Type 0} (P : T → Type 0) (b : Codec T C) (missing : T) (r : Result (Unit {0}))
    (m : Exec (Option C) A) (s : Option C)
    → Holds P b missing s
    → (r ≡ ok tt → Holds P b missing (m s).1)
    → Holds P b missing (continue (r, s) (λ _. m)).1
checked-Holds P b missing (ok tt) m s h k = k refl
checked-Holds P b missing (err e) m s h k = h

-- An answer after the edit.
pub answered-Holds :
    {T C A B : Type 0} (P : T → Type 0) (b : Codec T C) (missing : T) (w : Result A × Option C)
    (x : B)
    → Holds P b missing w.1
    → Holds P b missing (continue w (λ _ s. (ok x, s))).1
answered-Holds P b missing w x h = rw (continue_state w x) h

module _ {T C : Type 0} (b : Codec T C) (missing : T) where
  pub held-read_from :
      (s : Option C) (x : T) → read_from b missing s ≡ ok x → held b missing s ≡ some x
  unfolding read_from
  held-read_from none x h = ground arith
  held-read_from (some content) x h = ground arith

  pub read_from-held :
      (s : Option C) (x : T)
      → b.read_ok ≡ true
      → held b missing s ≡ some x
      → read_from b missing s ≡ ok x
  unfolding read_from
  read_from-held none x r h = ground arith
  read_from-held (some content) x r h = simp (r, h) refl

  module _ (P : T → Type 0) (c : IsCodec b) where
    pub save-Holds :
        (x : T) (s : Option C) → Holds P b missing s → P x → Holds P b missing (save b x s).1
    unfolding save
    save-Holds x s h p = elim (Bool-cases b.write_ok) [
      | inr e ↦ simp e h
      | inl e ↦ simp e (λ y q. subst P (some-injective _ _ (sym (c.unmarshal-marshal x) ∙ q)) p)
    ]

    -- An edit keeps what its change keeps, whatever the system answers.
    pub edit-Holds :
        (change : T → Result T) (s : Option C)
        → ((x y : T) → P x → change x ≡ ok y → P y)
        → Holds P b missing s
        → Holds P b missing (edit b missing change s).1
    unfolding edit load
    edit-Holds change s keep h = elim (Result-split (read_from b missing s)) [
      | inr (e, l) ↦ simp l h
      | inl (x, l) ↦ elim (Result-split (change x)) [
        | inr (e, k) ↦ simp (l, k) h
        | inl (y, k) ↦ simp (l, k) (save-Holds y s h (keep x y (h x (held-read_from s x l)) k))
      ]
    ]

  module _ (r : IsReliable b) where
    pub edit-accepts :
        (change : T → Result T) (s : Option C) (x y : T)
        → held b missing s ≡ some x
        → change x ≡ ok y
        → edit b missing change s ≡ (ok tt, some (b.marshal y))
    unfolding edit load save
    edit-accepts change s x y h k = simp (read_from-held s x r.reads h, k, r.writes) refl

    pub edit-refuses :
        (change : T → Result T) (s : Option C) (x : T) (e : Error)
        → held b missing s ≡ some x
        → change x ≡ err e
        → edit b missing change s ≡ (err e, s)
    unfolding edit load
    edit-refuses change s x e h k = simp (read_from-held s x r.reads h, k) refl
