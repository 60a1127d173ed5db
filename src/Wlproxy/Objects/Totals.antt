-- ===== src/Wlproxy/Objects/Totals.antt =====
-- How many live objects an insertion and a removal leave of a kind of interface.
use kryptik_os.Common.{
  ℕ, ◌+◌, ◌≡◌, refl, ap, arith, Bool, Option, none, some, ok, if◌then◌else◌, get_elem?,
}
use kryptik_os.Wlproxy.Protocol.{Interface}
use kryptik_os.Wlproxy.Objects.{
  Obj, Objects, get, insert, remove, remove_slot, slots, slot_index, flatten,
}
use kryptik_os.Wlproxy.Objects.Slots.{at_slot, tally, weight, tally-set, get_elem?-lt}
use kryptik_os.Wlproxy.Objects.Lookup.{insert-Takes}

abbrev pub total : (Interface → Bool) → Objects → ℕ
total p s = tally p s.client + tally p s.server

pub insert-total :
    (p : Interface → Bool) (s s' : Objects) (id : ℕ) (o : Obj)
    → insert s id o ≡ ok s'
    → total p s' ≡ total p s + (if p o.0 then 1 else 0)
insert-total p s s' id o h =
    let (v', t, made, room) = insert-Takes s s' id o h in rw made (ground (arith, t.tallied p))

remove_slot-total :
    (p : Interface → Bool) (s : Objects) (id : ℕ) (e : Option (Option Obj))
    → get_elem? (slots s id) (slot_index id) ≡ e
    → total p (remove_slot e s id) + weight p (flatten e) ≡ total p s
unfolding remove_slot
remove_slot-total p s id (some (some x)) at =
    let inside = get_elem?-lt (slots s id) (slot_index id) (some x) at in
    let there : at_slot (slots s id) (slot_index id) ≡ some x = ap flatten at in
    ground (arith, tally-set p (slots s id) (slot_index id) none inside, ap (weight p) there)
remove_slot-total p s id (some none) at = omega arith
remove_slot-total p s id none at = omega arith

pub remove-total :
    (p : Interface → Bool) (s : Objects) (id : ℕ)
    → total p (remove s id) + weight p (get s id) ≡ total p s
unfolding remove get
remove-total p s id = remove_slot-total p s id (get_elem? (slots s id) (slot_index id)) refl
