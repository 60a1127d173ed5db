-- ===== src/Wlproxy/Objects.antt =====
-- `Objects` of compositor/wlproxy/src/session.rs: the live objects of a connection, a vector of
-- slots for each of the two id ranges.
pub mod Slots
pub mod Lookup
pub mod Invariant
pub mod Totals
use kryptik_os.Common.{
  ℕ, ◌+◌, ◌-◌, ◌*◌, ◌<◌, Bool, true, false, ◌&&◌, Option, none, some, List, [], ◌∷◌, ◌++◌, Result,
  ok, err, ◌>>=◌, ltb, leb, ◌==◌, if◌then◌else◌, length, get_elem?, set,
}
use kryptik_os.Wlproxy.Wire.{server_id_base}
use kryptik_os.Wlproxy.Protocol.{Interface}
use kryptik_os.Wlproxy.Failure.{SessionError, duplicate_object, too_many_objects, sparse_id}

-- A live object: its interface and its negotiated version.
abbrev pub Obj : Type 0
Obj = Interface × ℕ

abbrev pub max_objects : ℕ
max_objects = 4096

abbrev pub max_id_slots : ℕ
max_id_slots = 2 * max_objects

abbrev pub Slots : Type 0
Slots = List (Option Obj)

pub record Objects : Type 0 where
  pub client : Slots
  pub server : Slots
  pub live : ℕ

-- Slot 0 is never an object.
unfoldable pub new_objects : Obj → Objects
new_objects display = record { client = none ∷ some display ∷ []; server = []; live = 1 }

-- The vector of an id, and the id's index in it.
abbrev pub slots : Objects → ℕ → Slots
slots s id = if ltb id server_id_base then s.client else s.server

abbrev pub slot_index : ℕ → ℕ
slot_index id = if ltb id server_id_base then id else id - server_id_base

-- The objects with another vector at an id.
abbrev pub with_slots : Objects → ℕ → Slots → ℕ → Objects
with_slots s id v live =
    if ltb id server_id_base
    then record s { client = v; live = live }
    else record s { server = v; live = live }

abbrev pub flatten : Option (Option Obj) → Option Obj
flatten none = none
flatten (some o) = o

unfoldable pub get : Objects → ℕ → Option Obj
get s id = flatten (get_elem? (slots s id) (slot_index id))

-- The vector after an insertion at an index, by what stands there.
unfoldable pub insert_slot :
    Option (Option Obj) → Bool → Slots → ℕ → ℕ → Obj → Result SessionError Slots
insert_slot (some (some _)) full v i id o = err (duplicate_object id)
insert_slot (some none) full v i id o = if full then err too_many_objects else ok (set v i (some o))
insert_slot none full v i id o =
    if full
    then err too_many_objects
    else if i == length v && ltb (length v) max_id_slots
    then ok (v ++ some o ∷ [])
    else err (sparse_id id)

unfoldable pub insert : Objects → ℕ → Obj → Result SessionError Objects
unfolding insert_slot
insert s id o = do
  let v = slots s id
  let i = slot_index id
  v' ← insert_slot (get_elem? v i) (leb max_objects s.live) v i id o
  ok (with_slots s id v' (s.live + 1))

remove_slot : Option (Option Obj) → Objects → ℕ → Objects
remove_slot (some (some _)) s id =
    with_slots s id (set (slots s id) (slot_index id) none) (s.live - 1)
remove_slot _ s id = s

pub remove : Objects → ℕ → Objects
unfolding remove_slot
remove s id = remove_slot (get_elem? (slots s id) (slot_index id)) s id

-- `position(Option::is_none).unwrap_or(len)`
unfoldable pub first_free : Slots → ℕ
first_free [] = 0
first_free (none ∷ v) = 0
first_free (some _ ∷ v) = first_free v + 1

unfoldable pub free_server_id : Objects → Option ℕ
unfolding first_free
free_server_id s =
    let i = first_free s.server in if ltb i max_id_slots then some (server_id_base + i) else none
