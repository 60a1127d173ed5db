-- ===== src/Wlproxy/Objects/Invariant.antt =====
-- The bounds of the object map: `live` counts the objects of both vectors, which stay bounded.
use kryptik_os.Common.{
  ℕ, ◌+◌, ◌≤◌, Option, none, some, ◌≡◌, refl, arith, ok, length, get_elem?, length-set,
}
use kryptik_os.Wlproxy.Objects.{
  Obj, Objects, new_objects, max_objects, max_id_slots, slots, slot_index, insert, remove,
  remove_slot,
}
use kryptik_os.Wlproxy.Objects.Slots.{live_in, live_in-set, get_elem?-lt}
use kryptik_os.Wlproxy.Objects.Lookup.{insert-Takes}

pub record IsBounded (s : Objects) : Type 0 where
  pub counted : s.live ≡ live_in s.client + live_in s.server
  pub bounded : s.live ≤ max_objects
  pub client_slots : length s.client ≤ max_id_slots
  pub server_slots : length s.server ≤ max_id_slots

pub new_objects-IsBounded : (display : Obj) → IsBounded (new_objects display)
unfolding new_objects
new_objects-IsBounded display = omega arith

-- Every accepted insertion keeps the count and the bounds.
pub insert-IsBounded :
    (s s' : Objects) (id : ℕ) (o : Obj) → IsBounded s → insert s id o ≡ ok s' → IsBounded s'
insert-IsBounded s s' id o b h =
    let (v', t, made, room) = insert-Takes s s' id o h in
    rw made
      (ground (arith, t.count, t.bounded, b.counted, b.bounded, b.client_slots, b.server_slots))

remove_slot-IsBounded :
    (s : Objects) (id : ℕ) (e : Option (Option Obj))
    → get_elem? (slots s id) (slot_index id) ≡ e
    → IsBounded s
    → IsBounded (remove_slot e s id)
unfolding remove_slot
remove_slot-IsBounded s id (some (some x)) at b =
    let inside = get_elem?-lt (slots s id) (slot_index id) (some x) at in
    ground (
      arith,
      live_in-set (slots s id) (slot_index id) none inside,
      length-set (slots s id) (slot_index id) none,
    )
remove_slot-IsBounded s id (some none) at b = b
remove_slot-IsBounded s id none at b = b

-- Every removal keeps them, also of an id with no object.
pub remove-IsBounded : (s : Objects) (id : ℕ) → IsBounded s → IsBounded (remove s id)
unfolding remove
remove-IsBounded s id b = remove_slot-IsBounded s id (get_elem? (slots s id) (slot_index id)) refl b
