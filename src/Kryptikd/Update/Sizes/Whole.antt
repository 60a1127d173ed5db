-- ===== src/Kryptikd/Update/Sizes/Whole.antt =====
-- What a stage may hold in every order of the operations of compartments/kryptikd/src/update.rs.
use kryptik_os.Common.{
  ℕ, ◌≤◌, ◌≡◌, refl, sym, ap, arith, Bool, List, [], ◌∷◌, Option, none, some, ok, ok_or, >>=-eq-ok,
  ok-eq, Option-cases, ltb, Bytes, eq_bytes, eq_bytes-eq, inl, inr, Bool-cases, ℤ,
}
use mathlib.Core.Path.{subst}
use kryptik_os.Kryptikd.Update.Pointer.{nothing_asked, not_verified}
use kryptik_os.Kryptikd.Update.Listing.{Entry, find_entry, still_needed}
use kryptik_os.Kryptikd.Update.Store.{
  Files, Store, Checks, wanted_version, staging, held, verified_files, stage_complete,
  complete_stage,
}
use kryptik_os.Kryptikd.Update.Put.{Pending}
use kryptik_os.Kryptikd.Update.Server.{
  Server, fresh, Event, stated, asked, forgotten, auto_set, booted, polled, sent, checked,
  discarded, take_bytes, end_check, polled_store, step, run,
}
use kryptik_os.Kryptikd.Update.Sizes.{
  FitsIn, IsSound, IsSound-core, latest-core, set_auto-core, want-IsSound, forget-IsSound,
  discard-IsSound, booted-IsSound, poll-IsSound,
}
use kryptik_os.Kryptikd.Update.Takes.{ok_or-some}
use kryptik_os.Kryptikd.Update.Sizes.Taken.{put-IsSound, conclude-IsSound}

abbrev IsServed : Server → Type 0
IsServed sv = IsSound sv.pending sv.store

take_bytes-IsServed :
    (pending : Option Pending) (now : ℤ) (name : Bytes) (offset : ℕ) (bytes : Bytes) (s : Store)
    → IsSound pending s
    → IsServed (take_bytes pending now name offset bytes s)
unfolding take_bytes
take_bytes-IsServed none now name offset bytes s h = put-IsSound now name offset bytes s h
take_bytes-IsServed (some p) now name offset bytes s h = h

end_check-IsServed :
    (checks : Checks) (pending : Option Pending) (free : ℕ) (s : Store)
    → IsSound pending s
    → IsServed (end_check checks pending free s)
unfolding end_check
end_check-IsServed checks none free s h = h
end_check-IsServed checks (some p) free s h = conclude-IsSound checks p free s h

module _ (checks : Checks) (role running : Bytes) (channel : Option Bytes) where
  polled-IsSound :
      (address : Option Bytes) (applying : Bool) (now : ℤ) (pending : Option Pending) (s : Store)
      → IsSound pending s
      → IsSound pending (polled_store checks role running channel address applying now s)
  unfolding polled_store
  polled-IsSound none applying now pending s h = h
  polled-IsSound (some address) applying now pending s h =
      poll-IsSound pending s h address role running applying now

  step-IsServed :
      (e : Event) (sv : Server) → IsServed sv → IsServed (step checks role running channel e sv)
  unfolding step
  step-IsServed (stated now text sig) sv h =
      IsSound-core sv.pending sv.store _ (latest-core checks role running now text sig sv.store) h
  step-IsServed (asked applying) sv h =
      want-IsSound sv.pending sv.store h channel role running applying
  step-IsServed (forgotten applying) sv h = forget-IsSound sv.pending sv.store h applying
  step-IsServed (auto_set on) sv h =
      IsSound-core sv.pending sv.store _ (set_auto-core on channel sv.store) h
  step-IsServed (booted trial) sv h = booted-IsSound sv.pending sv.store h trial running
  step-IsServed (polled applying now) sv h =
      polled-IsSound channel applying now sv.pending sv.store h
  step-IsServed (sent now name offset bytes) sv h =
      take_bytes-IsServed sv.pending now name offset bytes sv.store h
  step-IsServed (checked free) sv h = end_check-IsServed checks sv.pending free sv.store h
  step-IsServed discarded sv h = discard-IsSound sv.pending sv.store h

  run-IsServed :
      (events : List Event) (sv : Server)
      → IsServed sv
      → IsServed (run checks role running channel events sv)
  unfolding run
  run-IsServed [] sv h = h
  run-IsServed (e ∷ events) sv h =
      run-IsServed events (step checks role running channel e sv) (step-IsServed e sv h)

fresh-IsServed : IsServed fresh
fresh-IsServed = record { own = λ v miss. refl; fits = λ v name unsigned. refl; waits = tt }

-- A file that is not still needed is as long as its entry says.
still_needed-nil :
    (files : List Entry) (held_of : Bytes → ℕ) (name : Bytes) (e : Entry)
    → still_needed files held_of ≡ []
    → find_entry files name ≡ some e
    → e.size ≤ held_of name
unfolding still_needed
still_needed-nil [] held_of name e h found = cc
still_needed-nil (x ∷ files) held_of name e h found =
    elim (Bool-cases (ltb (held_of x.name) x.size)) [
      | inl short ↦ let k = rw short at h in cc
      | inr long ↦
          let k = rw long at h in
          elim (Bool-cases (eq_bytes x.name name)) [
            | inr other ↦ let f = rw other at found in still_needed-nil files held_of name e k f
            | inl same ↦
                let f = rw same at found in
                let one : x ≡ e = cc in
                let here : held_of x.name ≡ held_of name =
                  ap held_of (eq_bytes-eq x.name name same) in
                let size : x.size ≡ e.size = ap (λ (r : Entry). r.size) one in
                ground (arith, long, here, size)
          ]
    ]

-- Whatever the operations before, in any order and with whatever the net zone sends: where a
-- manifest has verified, no file of its listing is held longer than its signed size.
pub run-held :
    (checks : Checks) (role running : Bytes) (channel : Option Bytes) (events : List Event)
    (v : Bytes) (files : List Entry) (name : Bytes) (e : Entry)
    → verified_files (run checks role running channel events fresh).store v ≡ some files
    → find_entry files name ≡ some e
    → held (staging (run checks role running channel events fresh).store v) name ≤ e.size
run-held checks role running channel events v files name e verified found =
    let sound = run-IsServed checks role running channel events fresh fresh-IsServed in
    subst (λ o. FitsIn o (staging (run checks role running channel events fresh).store v)) verified
      (sound.fits v) name e found

abbrev pub SizeIs : Option Entry → ℕ → Type 0
SizeIs none k = Unit
SizeIs (some e) k = k ≡ e.size

-- A listing was verified, and if it has a file of a name, the stage holds all of that.
abbrev pub IsWhole : Option (List Entry) → Files → Bytes → Type 0
IsWhole none stage name = ⊥
IsWhole (some fs) stage name = SizeIs (find_entry fs name) (held stage name)

stage_complete-nil :
    (v w : Bytes) (need : List (Bytes × ℕ)) → stage_complete v need ≡ ok w → (need ≡ []) × (v ≡ w)
stage_complete-nil v w [] h = (refl, ok-eq h)
stage_complete-nil v w (n ∷ need) h = cc

complete_stage-parts :
    (s : Store) (v : Bytes)
    → complete_stage s ≡ ok v
    → (files : List Entry) × (verified_files s v ≡ some files)
      × (still_needed files (held (staging s v)) ≡ [])
unfolding complete_stage
complete_stage-parts s v h =
    let (w, request, h1) = >>=-eq-ok (ok_or (wanted_version s) nothing_asked) _ h in
    let (files, verified, h2) = >>=-eq-ok (ok_or (verified_files s w) not_verified) _ h1 in
    let (all, same) = stage_complete-nil w v (still_needed files (held (staging s w))) h2 in
    (
      files,
      subst (λ u. verified_files s u ≡ some files) same (ok_or-some _ _ files verified),
      subst (λ u. still_needed files (held (staging s u)) ≡ []) same all,
    )

SizeIs-find :
    (files : List Entry) (stage : Files) (name : Bytes)
    → still_needed files (held stage) ≡ []
    → FitsIn (some files) stage
    → SizeIs (find_entry files name) (held stage name)
SizeIs-find files stage name all fits = elim (Option-cases (find_entry files name)) [
  | inl missing ↦ rw missing tt
  | inr (e, found) ↦
      let long = still_needed-nil files (held stage) name e all found in
      rw found (omega (arith, long, fits name e found))
]

-- Whatever the operations before, in any order: a stage that is given to apply has a verified
-- listing, and holds every file of it at exactly its signed size.
pub complete_stage-run :
    (checks : Checks) (role running : Bytes) (channel : Option Bytes) (events : List Event)
    (v name : Bytes)
    → complete_stage (run checks role running channel events fresh).store ≡ ok v
    → IsWhole
        (verified_files (run checks role running channel events fresh).store v)
        (staging (run checks role running channel events fresh).store v)
        name
complete_stage-run checks role running channel events v name h =
    let s = (run checks role running channel events fresh).store in
    let sound = run-IsServed checks role running channel events fresh fresh-IsServed in
    let (files, verified, all) = complete_stage-parts s v h in
    let fits = subst (λ o. FitsIn o (staging s v)) verified (sound.fits v) in
    subst (λ o. IsWhole o (staging s v) name) (sym verified)
      (SizeIs-find files (staging s v) name all fits)
