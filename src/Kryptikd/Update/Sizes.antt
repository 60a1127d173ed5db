-- ===== src/Kryptikd/Update/Sizes.antt =====
-- What a stage may hold, and the operations of compartments/kryptikd/src/update.rs that change it,
-- but for `put`.
pub mod Taken
pub mod Whole
use kryptik_os.Common.{
  ℕ, suc, ◌+◌, ◌≤◌, ◌≡◌, refl, sym, ap, ◌∙◌, arith, Bool, true, false, not, ◌&&◌, ◌||◌, List, [],
  ◌∷◌, ◌++◌, Option, none, some, Result, ok, err, ◌>>=◌, >>=-eq-ok, ok-eq, leb, ltb, ◌==◌, ==_iff,
  if◌then◌else◌, length, length-append, Bytes, ascii, eq_bytes, eq_bytes-eq, eq_bytes_refl, inl,
  inr, Bool-cases, Option-cases, Result-cases, ℤ,
}
use mathlib.Core.Path.{subst}
use kryptik_os.Kryptikd.Update.Pointer.{Standing, being_applied, UpdateError, Pointer, check}
use kryptik_os.Kryptikd.Update.Listing.{
  Entry, is_signed_name, find_entry, may_append, may_put, still_needed,
}
use kryptik_os.Kryptikd.Update.Store.{
  keep_pointer, is_recent, Answer, asks_unprompted, Files, Store, Checks, wanted_version,
  wanted_pointer, is_version_of, stage_in, staging, content, held, verified_files, version_of,
  clear_stage, latest, want, may_want, ask, forget, set_auto, poll, discard_stage,
  forget_unless_trial, complete_stage,
}
use kryptik_os.Kryptikd.Update.Versions.{is_version, is_greater, version_cmp}
use kryptik_os.Kryptikd.Update.Put.{Pending, write, write_stage}
use kryptik_os.Kryptikd.Update.Stages.{content-write, stage_in-write_stage}
use kryptik_os.Kryptikd.Update.Names.{version_of-version, version_of-is_version}

-- What a stage may hold, by the listing that was verified for it.
abbrev pub FitsIn : Option (List Entry) → Files → Type 0
FitsIn none stage = (name : Bytes) → is_signed_name name ≡ false → held stage name ≡ 0
FitsIn (some fs) stage =
    (name : Bytes) (e : Entry) → find_entry fs name ≡ some e → held stage name ≤ e.size

abbrev pub Waits : Option Pending → Store → Type 0
Waits none s = Unit
Waits (some p) s =
    (p.opened ≤ s.cleared)
    × (s.cleared ≡ p.opened
        → (wanted_version s ≡ some p.version) × (verified_files s p.version ≡ none))

pub record IsSound (pending : Option Pending) (s : Store) : Type 0 where
  pub own : (v : Bytes) → is_version_of (wanted_version s) v ≡ false → staging s v ≡ []
  pub fits : (v : Bytes) → FitsIn (verified_files s v) (staging s v)
  pub waits : Waits pending s

-- The part of a store that this is about.
pub record Core : Type 0 where
  pub asked_for : Option Bytes
  pub listing : Option Bytes
  pub stages : List (Bytes × Files)
  pub removals : ℕ

abbrev pub core : Store → Core
core s = record {
  asked_for = s.wanted;
  listing = s.files;
  stages = s.incoming;
  removals = s.cleared;
}

abbrev of_core : Core → Store
of_core c = record {
  considered = none;
  refused = none;
  pointer = none;
  wanted = c.asked_for;
  declined = none;
  auto = false;
  files = c.listing;
  incoming = c.stages;
  cleared = c.removals;
}

to_core :
    (pending : Option Pending) (s : Store) → IsSound pending s → IsSound pending (of_core (core s))
to_core none s h = record { own = h.own; fits = h.fits; waits = h.waits }
to_core (some p) s h = record { own = h.own; fits = h.fits; waits = h.waits }

from_core :
    (pending : Option Pending) (s : Store) → IsSound pending (of_core (core s)) → IsSound pending s
from_core none s h = record { own = h.own; fits = h.fits; waits = h.waits }
from_core (some p) s h = record { own = h.own; fits = h.fits; waits = h.waits }

pub IsSound-core :
    (pending : Option Pending) (s t : Store)
    → core t ≡ core s
    → IsSound pending s
    → IsSound pending t
IsSound-core pending s t e h =
    from_core pending t (subst (λ c. IsSound pending (of_core c)) (sym e) (to_core pending s h))

clear-Waits :
    (pending : Option Pending) (s : Store) (w : Option Bytes)
    → Waits pending s
    → Waits pending (clear_stage (record s { wanted = w }))
clear-Waits none s w h = tt
clear-Waits (some p) s w h = (omega (arith, h.0), λ e. absurd (omega (arith, h.0, e)))

-- With the stages removed there is nothing to fit, whatever is asked for next.
pub clear-IsSound :
    (pending : Option Pending) (s t : Store)
    → core t ≡ core (clear_stage (record s { wanted = t.wanted }))
    → IsSound pending s
    → IsSound pending t
clear-IsSound pending s t e h =
    IsSound-core pending (clear_stage (record s { wanted = t.wanted })) t e (record {
      own = λ v miss. refl;
      fits = λ v name unsigned. refl;
      waits = clear-Waits pending s t.wanted h.waits;
    })

wanted-is_version : (s : Store) (v : Bytes) → wanted_version s ≡ some v → is_version v ≡ true
wanted-is_version s v h = elim (Option-cases s.wanted) [
  | inl e ↦ let k = rw e at h in cc
  | inr (text, e) ↦ let k = rw e at h in version_of-is_version text v k
]

-- What was asked for is read back when it is asked for again.
wanted-again :
    (s : Store) (v : Bytes)
    → is_version_of (wanted_version s) v ≡ true
    → version_of v ≡ wanted_version s
wanted-again s v h = elim (Option-cases (wanted_version s)) [
  | inl e ↦ let k = rw e at h in cc
  | inr (w, e) ↦
      let k = rw e at h in
      let same : w ≡ v = eq_bytes-eq w v k in
      let valid : is_version w ≡ true = wanted-is_version s w e in
      rw (e, ← same) (version_of-version w valid)
]

keep_pointer-core :
    (text : Bytes) (s : Store) (r : Result UpdateError Standing)
    → core (keep_pointer text s r).1 ≡ core s
keep_pointer-core text s (ok standing) = refl
keep_pointer-core text s (err e) = refl

if-core :
    {A : Type 0} (b : Bool) (x y : Answer A) (c : Core)
    → core x.1 ≡ c
    → core y.1 ≡ c
    → core (if b then x else y).1 ≡ c
if-core true x y c h k = h
if-core false x y c h k = k

pub latest-core :
    (checks : Checks) (role running : Bytes) (now : ℤ) (text sig : Bytes) (s : Store)
    → core (latest checks role running now text sig s).1 ≡ core s
unfolding latest
latest-core checks role running now text sig s =
    if-core (is_recent now s.considered) _ _ (core s) refl (
      if-core (not (checks.is_text text)) _ _ (core s) refl (
        if-core (not (checks.pointer text sig)) _ _ (core s) refl
          (keep_pointer-core text (record s { considered = some now }) _)))

pub set_auto-core :
    (on : Bool) (channel : Option Bytes) (s : Store) → core (set_auto on channel s).1 ≡ core s
unfolding set_auto
set_auto-core false channel s = refl
set_auto-core true none s = refl
set_auto-core true (some address) s = refl

if-IsSound :
    {A : Type 0} (pending : Option Pending) (b : Bool) (x y : Answer A)
    → IsSound pending x.1
    → IsSound pending y.1
    → IsSound pending (if b then x else y).1
if-IsSound pending true x y h k = h
if-IsSound pending false x y h k = k

if_store-IsSound :
    (pending : Option Pending) (b : Bool) (x y : Store)
    → IsSound pending x
    → IsSound pending y
    → IsSound pending (if b then x else y)
if_store-IsSound pending true x y h k = h
if_store-IsSound pending false x y h k = k

again-Waits :
    (pending : Option Pending) (s : Store) (v : Bytes)
    → version_of v ≡ wanted_version s
    → Waits pending s
    → Waits pending (record s { wanted = some v; declined = none })
again-Waits none s v e w = tt
again-Waits (some p) s v e w = (w.0, λ same. (e ∙ (w.1 same).0, (w.1 same).1))

module _ (pending : Option Pending) (s : Store) (h : IsSound pending s) where
  again-IsSound :
      (v : Bytes)
      → is_version_of (wanted_version s) v ≡ true
      → IsSound pending (record s { wanted = some v; declined = none })
  again-IsSound v asked =
      let e = wanted-again s v asked in
      record {
        own = λ w miss. h.own w (subst (λ o. is_version_of o w ≡ false) e miss);
        fits = h.fits;
        waits = again-Waits pending s v e h.waits;
      }

  ask-IsSound : (applying : Bool) (v : Bytes) → IsSound pending (ask applying v s).1
  unfolding ask
  ask-IsSound applying v = elim (Bool-cases (is_version_of (wanted_version s) v)) [
    | inl asked ↦ rw (asked, ask) (again-IsSound v asked)
    | inr other ↦
        rw (other, ask)
          (if-IsSound pending applying _ _ h (
            clear-IsSound pending s (record (clear_stage s) { wanted = some v; declined = none })
              refl h))
  ]

  pub want-IsSound :
      (channel : Option Bytes) (role running : Bytes) (applying : Bool)
      → IsSound pending (want channel role running applying s).1
  unfolding want
  want-IsSound channel role running applying =
      elim (Result-cases (may_want channel role running s)) [
        | inl (v, e) ↦ rw (e, want) (ask-IsSound applying v)
        | inr (w, e) ↦ rw (e, want) h
      ]

  pub forget-IsSound : (applying : Bool) → IsSound pending (forget applying s).1
  unfolding forget
  forget-IsSound applying = elim (Option-cases (wanted_version s)) [
    | inl e ↦ rw (e, forget) h
    | inr (v, e) ↦
        rw (e, forget)
          (if-IsSound pending applying _ _ h (
            clear-IsSound pending s (clear_stage (record s { declined = some v; wanted = none }))
              refl h))
  ]

  pub discard-IsSound : IsSound pending (discard_stage s)
  unfolding discard_stage
  discard-IsSound = clear-IsSound pending s (clear_stage s) refl h

  pub booted-IsSound :
      (trial : Bool) (running : Bytes) → IsSound pending (forget_unless_trial trial running s)
  unfolding forget_unless_trial
  booted-IsSound trial running = elim (Option-cases (wanted_version s)) [
    | inl e ↦ rw (e, forget_unless_trial) h
    | inr (v, e) ↦
        rw (e, forget_unless_trial)
          (if_store-IsSound pending (trial || is_greater (version_cmp v running)) _ _ h
            (clear-IsSound pending s (clear_stage (record s { wanted = none })) refl h))
  ]

  pub poll-IsSound :
      (channel role running : Bytes) (applying : Bool) (now : ℤ)
      → IsSound pending (poll channel role running applying now s).1
  unfolding poll
  poll-IsSound channel role running applying now =
      if_store-IsSound pending (asks_unprompted s) _ _
        (want-IsSound (some channel) role running applying) h
