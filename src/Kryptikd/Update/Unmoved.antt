-- ===== src/Kryptikd/Update/Unmoved.antt =====
-- The operations of compartments/kryptikd/src/update.rs but `latest`, and the statement that is
-- kept.
use kryptik_os.Common.{
  ℕ, ◌≡◌, refl, Bool, true, false, ◌||◌, List, Option, none, some, if◌then◌else◌, ◌==◌, Bytes,
  ascii, inl, inr, Bool-cases, Option-cases, Result-cases, ℤ,
}
use kryptik_os.Kryptikd.Update.Versions.{is_greater, version_cmp}
use kryptik_os.Kryptikd.Update.Pointer.{Pointer}
use kryptik_os.Kryptikd.Update.Listing.{Entry}
use kryptik_os.Kryptikd.Update.Store.{
  Store, Checks, Answer, wanted_version, is_version_of, is_recent, held, staging, ask, may_want,
  want, forget, set_auto, poll, asks_unprompted, forget_unless_trial,
}
use kryptik_os.Kryptikd.Update.Put.{
  Pending, may_take, remove_stage, pair_in, put_in, put, judge_listing, conclude,
}
use kryptik_os.Kryptikd.Update.Server.{take_bytes, end_check, polled_store}

pub if-pointer :
    {A : Type 0} (b : Bool) (x y : Answer A) (o : Option Bytes)
    → x.1.pointer ≡ o
    → y.1.pointer ≡ o
    → (if b then x else y).1.pointer ≡ o
if-pointer true x y o h k = h
if-pointer false x y o h k = k

pub if_store-pointer :
    (b : Bool) (x y : Store) (o : Option Bytes)
    → x.pointer ≡ o
    → y.pointer ≡ o
    → (if b then x else y).pointer ≡ o
if_store-pointer true x y o h k = h
if_store-pointer false x y o h k = k

module _ (s : Store) where
  pub want-pointer :
      (channel : Option Bytes) (role running : Bytes) (applying : Bool)
      → (want channel role running applying s).1.pointer ≡ s.pointer
  unfolding want ask
  want-pointer channel role running applying =
      elim (Result-cases (may_want channel role running s)) [
        | inr (w, e) ↦ rw (e, want) refl
        | inl (v, e) ↦
            rw (e, want)
              (if-pointer (is_version_of (wanted_version s) v) _ _ s.pointer refl
                (if-pointer applying _ _ s.pointer refl refl))
      ]

  pub forget-pointer : (applying : Bool) → (forget applying s).1.pointer ≡ s.pointer
  unfolding forget
  forget-pointer applying = elim (Option-cases (wanted_version s)) [
    | inl e ↦ rw (e, forget) refl
    | inr (v, e) ↦ rw (e, forget) (if-pointer applying _ _ s.pointer refl refl)
  ]

  pub booted-pointer :
      (trial : Bool) (running : Bytes) → (forget_unless_trial trial running s).pointer ≡ s.pointer
  unfolding forget_unless_trial
  booted-pointer trial running = elim (Option-cases (wanted_version s)) [
    | inl e ↦ rw (e, forget_unless_trial) refl
    | inr (v, e) ↦
        rw (e, forget_unless_trial)
          (if_store-pointer (trial || is_greater (version_cmp v running)) _ _ s.pointer refl refl)
  ]

  pub set_auto-pointer :
      (on : Bool) (channel : Option Bytes) → (set_auto on channel s).1.pointer ≡ s.pointer
  unfolding set_auto
  set_auto-pointer false channel = refl
  set_auto-pointer true none = refl
  set_auto-pointer true (some address) = refl

  pub polled-pointer :
      (checks : Checks) (role running : Bytes) (channel address : Option Bytes) (applying : Bool)
      (now : ℤ)
      → (polled_store checks role running channel address applying now s).pointer ≡ s.pointer
  unfolding polled_store poll
  polled-pointer checks role running channel none applying now = refl
  polled-pointer checks role running channel (some address) applying now =
      if_store-pointer (asks_unprompted s) _ _ s.pointer
        (want-pointer (some address) role running applying) refl

  pub pair_in-pointer : (now : ℤ) (p : Pointer) → (pair_in now p s).1.pointer ≡ s.pointer
  unfolding pair_in remove_stage
  pair_in-pointer now p =
      elim (Bool-cases (
        held (staging s p.version) (ascii "manifest") == 0
        || held (staging s p.version) (ascii "manifest.sig") == 0)) [
          | inl partial ↦ rw (partial, pair_in) refl
          | inr both_in ↦ elim (Bool-cases (is_recent now s.refused)) [
            | inl soon ↦ rw (both_in, soon, pair_in) refl
            | inr later ↦ rw (both_in, later, pair_in) refl
          ]
        ]

pub put_in-pointer :
    (now : ℤ) (name : Bytes) (offset : ℕ) (bytes : Bytes) (s : Store) (p : Pointer)
    (files : Option (List Entry))
    → (put_in now name offset bytes s p files).1.pointer ≡ s.pointer
unfolding put_in
put_in-pointer now name offset bytes s p none = pair_in-pointer (record s { incoming = _ }) now p
put_in-pointer now name offset bytes s p (some fs) = refl

pub take_bytes-pointer :
    (pending : Option Pending) (now : ℤ) (name : Bytes) (offset : ℕ) (bytes : Bytes) (s : Store)
    → (take_bytes pending now name offset bytes s).store.pointer ≡ s.pointer
unfolding take_bytes put
take_bytes-pointer (some p) now name offset bytes s = refl
take_bytes-pointer none now name offset bytes s =
    elim (Result-cases (may_take name offset bytes s)) [
      | inr (e, stopped) ↦ rw (stopped, put) refl
      | inl ((p, files), taken) ↦ rw (taken, put) (put_in-pointer now name offset bytes s p files)
    ]

pub end_check-pointer :
    (checks : Checks) (pending : Option Pending) (free : ℕ) (s : Store)
    → (end_check checks pending free s).store.pointer ≡ s.pointer
unfolding end_check conclude remove_stage
end_check-pointer checks none free s = refl
end_check-pointer checks (some p) free s = elim (Bool-cases (s.cleared == p.opened)) [
  | inr gone ↦ rw (gone, conclude) refl
  | inl here ↦ elim (Result-cases (judge_listing (checks.manifest p.stage) p free)) [
    | inl (listing, e) ↦ rw (here, e, conclude) refl
    | inr (why, e) ↦ rw (here, e, conclude) refl
  ]
]
