-- ===== src/Kryptikd/Update/Server.antt =====
-- The update channel as a machine: the operations of compartments/kryptikd/src/update.rs in any
-- order, with a check of a manifest that other operations may overtake. The net zone's `put`s come
-- one after the other.
use kryptik_os.Common.{ℕ, Bool, List, [], ◌∷◌, Option, none, some, Bytes, ℤ}
use kryptik_os.Kryptikd.Update.Store.{
  Store, Checks, empty_store, latest, want, forget, set_auto, poll, discard_stage,
  forget_unless_trial,
}
use kryptik_os.Kryptikd.Update.Put.{
  Pending, Outcome, failed, arriving, complete, checking, put, conclude,
}

pub record Server : Type 0 where
  pub store : Store
  pub pending : Option Pending

abbrev pub fresh : Server
fresh = record { store = empty_store; pending = none }

-- With its time, or whether an update is being applied; `checked` is the end of a check, with the
-- free space.
pub data Event : Type 0 where
  stated : ℤ → Bytes → Bytes → Event
  asked forgotten auto_set booted : Bool → Event
  polled : Bool → ℤ → Event
  sent : ℤ → Bytes → ℕ → Bytes → Event
  checked : ℕ → Event
  discarded : Event

abbrev pub with_store : Server → Store → Server
with_store sv s = record sv { store = s }

abbrev pub started : Outcome → Option Pending
started (checking p) = some p
started (failed e) = none
started arriving = none
started complete = none

-- What a check has to say of one that is waited for.
unfoldable pub take_bytes : Option Pending → ℤ → Bytes → ℕ → Bytes → Store → Server
take_bytes (some p) now name offset bytes s = record { store = s; pending = some p }
take_bytes none now name offset bytes s =
    let (outcome, s') = put now name offset bytes s in
    record { store = s'; pending = started outcome }

unfoldable pub end_check : Checks → Option Pending → ℕ → Store → Server
end_check checks none free s = record { store = s; pending = none }
end_check checks (some p) free s = record { store = (conclude checks p free s).1; pending = none }

module _ (checks : Checks) (role running : Bytes) (channel : Option Bytes) where
  unfoldable pub polled_store : Option Bytes → Bool → ℤ → Store → Store
  polled_store none applying now s = s
  polled_store (some address) applying now s = (poll address role running applying now s).1

  unfoldable pub step : Event → Server → Server
  step (stated now text sig) sv = with_store sv (latest checks role running now text sig sv.store).1
  step (asked applying) sv = with_store sv (want channel role running applying sv.store).1
  step (forgotten applying) sv = with_store sv (forget applying sv.store).1
  step (auto_set on) sv = with_store sv (set_auto on channel sv.store).1
  step (booted trial) sv = with_store sv (forget_unless_trial trial running sv.store)
  step (polled applying now) sv = with_store sv (polled_store channel applying now sv.store)
  step (sent now name offset bytes) sv = take_bytes sv.pending now name offset bytes sv.store
  step (checked free) sv = end_check checks sv.pending free sv.store
  step discarded sv = with_store sv (discard_stage sv.store)

  unfoldable pub run : List Event → Server → Server
  run [] sv = sv
  run (e ∷ events) sv = run events (step e sv)
