-- ===== src/Kryptikd/Update/Rollback.antt =====
-- The statement that is kept, in every order of the operations of
-- compartments/kryptikd/src/update.rs.
use kryptik_os.Common.{
  ◌≡◌, refl, sym, arith, Bool, true, false, not, List, [], ◌∷◌, Option, none, some, ok, and_then,
  >>=-eq-ok, if◌then◌else◌, Bytes, eq_bytes, eq_bytes-eq, inl, inr, ◌⊎◌, Result-cases, ℤ, ◌≤ℤ◌,
  ltb_ℤ, ltb_ℤ-le, saturating_add,
}
use mathlib.Core.Path.{subst}
use kryptik_os.Kryptikd.Update.Pointer.{
  Pointer, Standing, parse_pointer, accept_pointer, is_replay, max_ahead_secs, wrong_role,
  from_the_future, replay,
}
use kryptik_os.Kryptikd.Update.Store.{
  to_option, Store, Checks, Answer, issued_of, is_recent, keep_pointer, judge, latest,
  discard_stage,
}
use kryptik_os.Kryptikd.Update.Server.{
  Server, fresh, Event, stated, asked, forgotten, auto_set, booted, polled, sent, checked,
  discarded, step, run,
}
use kryptik_os.Kryptikd.Update.Takes.{stop-ok}
use kryptik_os.Kryptikd.Update.Unmoved.{
  want-pointer, forget-pointer, booted-pointer, set_auto-pointer, polled-pointer,
  take_bytes-pointer, end_check-pointer,
}

-- The second time is not before the first.
abbrev pub NotOlder : Option ℤ → Option ℤ → Type 0
NotOlder none o = Unit
NotOlder (some i) none = ⊥
NotOlder (some i) (some j) = i ≤ℤ j

NotOlder-refl : (o : Option ℤ) → NotOlder o o
NotOlder-refl none = tt
NotOlder-refl (some i) = omega arith

NotOlder-trans : (a b c : Option ℤ) → NotOlder a b → NotOlder b c → NotOlder a c
NotOlder-trans none b c h k = tt
NotOlder-trans (some i) none c h k = absurd h
NotOlder-trans (some i) (some j) none h k = absurd k
NotOlder-trans (some i) (some j) (some l) h k = omega arith

-- A statement that is accepted: its signature is good, its role is the image's, and it is not
-- older than the one before.
abbrev Accepted : Checks → Bytes → Option ℤ → Option Bytes → Type 0
Accepted checks role before none = ⊥
Accepted checks role before (some text) =
    (sig : Bytes) × (p : Pointer) × (checks.pointer text sig ≡ true)
    × (parse_pointer text ≡ ok p)
    × (p.role ≡ role)
    × NotOlder before (some p.issued)

not_replay :
    (issued : ℤ) (before : Option ℤ)
    → is_replay issued before ≡ false
    → NotOlder before (some issued)
not_replay issued none h = tt
not_replay issued (some seen) h = ltb_ℤ-le issued seen h

accept_pointer-accepts :
    (p : Pointer) (role running : Bytes) (before : Option ℤ) (now : ℤ) (standing : Standing)
    → accept_pointer p role running before now ≡ ok standing
    → (p.role ≡ role) × NotOlder before (some p.issued)
unfolding accept_pointer
accept_pointer-accepts p role running before now standing h =
    let (fits, h1) = stop-ok (not (eq_bytes p.role role)) wrong_role _ standing h in
    let (timely, h2) =
      stop-ok (ltb_ℤ (saturating_add now max_ahead_secs) p.issued) from_the_future _ standing h1 in
    let (fresh_one, h3) = stop-ok (is_replay p.issued before) replay _ standing h2 in
    let same : eq_bytes p.role role ≡ true = ground (arith, fits) in
    (eq_bytes-eq p.role role same, not_replay p.issued before fresh_one)

-- What becomes of the statement that is kept.
abbrev Kept : Checks → Bytes → Store → Store → Type 0
Kept checks role s t = (t.pointer ≡ s.pointer) ⊎ Accepted checks role (issued_of s) t.pointer

if-Kept :
    {A : Type 0} (checks : Checks) (role : Bytes) (s : Store) (b : Bool) (x y : Answer A)
    → (b ≡ true → Kept checks role s x.1)
    → (b ≡ false → Kept checks role s y.1)
    → Kept checks role s (if b then x else y).1
if-Kept checks role s true x y h k = h refl
if-Kept checks role s false x y h k = k refl

module _ (checks : Checks) (role running : Bytes) where
  keep_pointer-Kept :
      (now : ℤ) (text sig : Bytes) (s : Store)
      → checks.pointer text sig ≡ true
      → Kept checks role s (keep_pointer text s (judge role running now text s)).1
  unfolding judge
  keep_pointer-Kept now text sig s signed = elim (Result-cases (judge role running now text s)) [
    | inr (e, refused_one) ↦ rw refused_one (inl refl)
    | inl (standing, accepted) ↦
        let (p, parsed, h) = >>=-eq-ok (parse_pointer text) _ accepted in
        let (fits, later) = accept_pointer-accepts p role running (issued_of s) now standing h in
        rw accepted (inr (sig, p, signed, parsed, fits, later))
  ]

  latest-Kept :
      (now : ℤ) (text sig : Bytes) (s : Store)
      → Kept checks role s (latest checks role running now text sig s).1
  unfolding latest
  latest-Kept now text sig s =
      if-Kept checks role s (is_recent now s.considered) _ _ (λ h. inl refl)
        λ h.
          if-Kept checks role s (not (checks.is_text text)) _ _ (λ k. inl refl)
            λ k.
              if-Kept checks role s (not (checks.pointer text sig)) _ _ (λ l. inl refl)
                λ l.
                  keep_pointer-Kept now text sig (record s { considered = some now })
                    (ground (arith, l))

  step-Kept :
      (channel : Option Bytes) (e : Event) (sv : Server)
      → Kept checks role sv.store (step checks role running channel e sv).store
  unfolding step discard_stage
  step-Kept channel (stated now text sig) sv = latest-Kept now text sig sv.store
  step-Kept channel (asked applying) sv = inl (want-pointer sv.store channel role running applying)
  step-Kept channel (forgotten applying) sv = inl (forget-pointer sv.store applying)
  step-Kept channel (auto_set on) sv = inl (set_auto-pointer sv.store on channel)
  step-Kept channel (booted trial) sv = inl (booted-pointer sv.store trial running)
  step-Kept channel (polled applying now) sv =
      inl (polled-pointer sv.store checks role running channel channel applying now)
  step-Kept channel (sent now name offset bytes) sv =
      inl (take_bytes-pointer sv.pending now name offset bytes sv.store)
  step-Kept channel (checked free) sv = inl (end_check-pointer checks sv.pending free sv.store)
  step-Kept channel discarded sv = inl refl

  Accepted-issued :
      (before : Option ℤ) (o : Option Bytes)
      → Accepted checks role before o
      → NotOlder before
          (and_then (and_then o (λ text. to_option (parse_pointer text))) (λ p. some p.issued))
  Accepted-issued before none h = absurd h
  Accepted-issued before (some text) (sig, p, signed, parsed, fits, later) = rw parsed later

  step-NotOlder :
      (channel : Option Bytes) (e : Event) (sv : Server)
      → NotOlder (issued_of sv.store) (issued_of (step checks role running channel e sv).store)
  step-NotOlder channel e sv = elim (step-Kept channel e sv) [
    | inl same ↦
        subst
          (λ o.
            NotOlder (issued_of sv.store)
              (and_then (and_then o (λ text. to_option (parse_pointer text))) (λ p. some p.issued)))
          (sym same) (NotOlder-refl (issued_of sv.store))
    | inr taken ↦
        Accepted-issued (issued_of sv.store) (step checks role running channel e sv).store.pointer
          taken
  ]

  -- From any state, whatever the operations and whatever the net zone sends: the date of the
  -- statement that is kept never goes back, and a statement is never lost.
  pub run-NotOlder :
      (channel : Option Bytes) (events : List Event) (sv : Server)
      → NotOlder (issued_of sv.store) (issued_of (run checks role running channel events sv).store)
  unfolding run
  run-NotOlder channel [] sv = NotOlder-refl (issued_of sv.store)
  run-NotOlder channel (e ∷ events) sv =
      NotOlder-trans (issued_of sv.store) (issued_of (step checks role running channel e sv).store)
        _ (step-NotOlder channel e sv)
        (run-NotOlder channel events (step checks role running channel e sv))

-- A statement that was signed, and is for the role.
abbrev pub IsSigned : Checks → Bytes → Option Bytes → Type 0
IsSigned checks role none = Unit
IsSigned checks role (some text) =
    (sig : Bytes) × (p : Pointer) × (checks.pointer text sig ≡ true)
    × (parse_pointer text ≡ ok p)
    × (p.role ≡ role)

Accepted-IsSigned :
    (checks : Checks) (role : Bytes) (before : Option ℤ) (o : Option Bytes)
    → Accepted checks role before o
    → IsSigned checks role o
Accepted-IsSigned checks role before none h = absurd h
Accepted-IsSigned checks role before (some text) (sig, p, signed, parsed, fits, later) =
    (sig, p, signed, parsed, fits)

run_from-IsSigned :
    (checks : Checks) (role running : Bytes) (channel : Option Bytes) (events : List Event)
    (sv : Server)
    → IsSigned checks role sv.store.pointer
    → IsSigned checks role (run checks role running channel events sv).store.pointer
unfolding run
run_from-IsSigned checks role running channel [] sv h = h
run_from-IsSigned checks role running channel (e ∷ events) sv h =
    run_from-IsSigned checks role running channel events (step checks role running channel e sv)
      (elim (step-Kept checks role running channel e sv) [
        | inl same ↦ subst (IsSigned checks role) (sym same) h
        | inr taken ↦ Accepted-IsSigned checks role (issued_of sv.store) _ taken
      ])

-- Whatever the operations and whatever the net zone sends, from the empty state: the statement
-- that is kept, if there is one, passed the check of its signature, parses, and is for the role
-- that the image requires.
pub run-IsSigned :
    (checks : Checks) (role running : Bytes) (channel : Option Bytes) (events : List Event)
    → IsSigned checks role (run checks role running channel events fresh).store.pointer
run-IsSigned checks role running channel events =
    run_from-IsSigned checks role running channel events fresh tt
