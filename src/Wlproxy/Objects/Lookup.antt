-- ===== src/Wlproxy/Objects/Lookup.antt =====
-- `get` after `insert` and `remove`: the two vectors implement one map from ids to objects.
use kryptik_os.Common.{
  ◌&&◌, zero, suc, ◌>>=◌, ◌∙◌, ◌∙◌, ltb, err, suc, Result, ℕ, ◌+◌, ◌<◌, ◌≤◌, Bool, false, Option,
  none, some, [], ◌∷◌, ◌++◌, ◌≡◌, refl, ap, arith, ok, >>=-eq-ok, leb, ◌==◌, if◌then◌else◌, length,
  get_elem?, set, length-set, length-append,
}
use kryptik_os.Wlproxy.Protocol.{Interface}
use kryptik_os.Wlproxy.Objects.{
  sparse_id, too_many_objects, server_id_base, duplicate_object, free_server_id, SessionError,
  remove_slot, remove, Obj, Slots, Objects, flatten, max_objects, max_id_slots, slots, slot_index,
  with_slots, get, insert, insert_slot,
}
use kryptik_os.Wlproxy.Objects.Slots.{
  first_free-free, at_slot, occupied, live_in, at_slot-set, at_slot-push, live_in-set, live_in-push,
  weight, tally, tally-set, tally-push, get_elem?-lt,
}

-- What an insertion does to its vector.
pub record Takes (v : Slots) (i : ℕ) (o : Obj) (v' : Slots) : Type 0 where
  pub free : at_slot v i ≡ none
  pub lookup : (j : ℕ) → at_slot v' j ≡ (if i == j then some o else at_slot v j)
  pub count : live_in v' ≡ live_in v + 1
  pub tallied : (p : Interface → Bool) → tally p v' ≡ tally p v + weight p (some o)
  pub bounded : length v ≤ max_id_slots → length v' ≤ max_id_slots

set-Takes :
    (v : Slots) (i : ℕ) (o : Obj) → get_elem? v i ≡ some none → Takes v i o (set v i (some o))
set-Takes v i o at =
    let inside = get_elem?-lt v i none at in
    let free : at_slot v i ≡ none = ap flatten at in
    record {
      free = free;
      lookup = λ j. at_slot-set v i j (some o) inside;
      count = omega (arith, live_in-set v i (some o) inside, ap occupied free);
      tallied = λ p. omega (arith, tally-set p v i (some o) inside, ap (weight p) free);
      bounded = λ h. rw length-set h;
    }

push-Takes :
    (v : Slots) (i : ℕ) (o : Obj)
    → get_elem? v i ≡ none
    → i ≡ length v
    → length v < max_id_slots
    → Takes v i o (v ++ some o ∷ [])
push-Takes v i o at here room = record {
  free = ap flatten at;
  lookup = λ j. rw here (at_slot-push v j (some o));
  count = omega (arith, live_in-push v (some o));
  tallied = λ p. tally-push p v (some o);
  bounded = λ h. omega (arith, length-append v (some o ∷ []));
}

insert_slot-Takes :
    (v v' : Slots) (full : Bool) (i id : ℕ) (o : Obj) (e : Option (Option Obj))
    → get_elem? v i ≡ e
    → insert_slot e full v i id o ≡ ok v'
    → Takes v i o v' × (full ≡ false)
unfolding insert_slot
insert_slot-Takes v v' full i id o (some (some x)) at h = cc
insert_slot-Takes v v' full i id o (some none) at h =
    let made : set v i (some o) ≡ v' = ground arith in
    (rw (← made) (set-Takes v i o at), ground arith)
insert_slot-Takes v v' full i id o none at h =
    let made : v ++ some o ∷ [] ≡ v' = ground arith in
    (rw (← made) (push-Takes v i o at (ground arith) (ground arith)), ground arith)

-- A successful insertion, by the vector of its id.
pub insert-Takes :
    (s s' : Objects) (id : ℕ) (o : Obj)
    → insert s id o ≡ ok s'
    → (v' : Slots) × Takes (slots s id) (slot_index id) o v'
      × (s' ≡ with_slots s id v' (s.live + 1))
      × (s.live < max_objects)
unfolding insert
insert-Takes s s' id o h =
    let v = slots s id in
    let i = slot_index id in
    let (v', made, e) =
      >>=-eq-ok (insert_slot (get_elem? v i) (leb max_objects s.live) v i id o) _ h in
    let (t, room) =
      insert_slot-Takes v v' (leb max_objects s.live) i id o (get_elem? v i) refl made in
    (v', t, cc, ground arith)

-- After an insertion, its id has the new object, and every other id what it had. The id was free.
pub get-insert :
    (s s' : Objects) (id : ℕ) (o : Obj)
    → insert s id o ≡ ok s'
    → ((j : ℕ) → get s' j ≡ (if id == j then some o else get s j)) × (get s id ≡ none)
unfolding get
get-insert s s' id o h =
    let (v', t, made, room) = insert-Takes s s' id o h in
    (λ j. rw made (ground (arith, t.lookup (slot_index j))), t.free)

remove_slot-get :
    (s : Objects) (id j : ℕ) (e : Option (Option Obj))
    → get_elem? (slots s id) (slot_index id) ≡ e
    → get (remove_slot e s id) j ≡ (if id == j then none else get s j)
unfolding get remove_slot
remove_slot-get s id j (some (some x)) at =
    let inside = get_elem?-lt (slots s id) (slot_index id) (some x) at in
    ground (arith, at_slot-set (slots s id) (slot_index id) (slot_index j) none inside)
remove_slot-get s id j (some none) at = ground arith
remove_slot-get s id j none at = ground arith

-- After a removal its id has no object, and every other id what it had.
pub get-remove :
    (s : Objects) (id j : ℕ) → get (remove s id) j ≡ (if id == j then none else get s j)
unfolding remove
get-remove s id j = remove_slot-get s id j (get_elem? (slots s id) (slot_index id)) refl

-- Why an insertion is refused, in the order in which the source asks.
abbrev pub refusal : Objects → ℕ → Option SessionError
refusal s id = elim (get s id) [
  | some _ ↦ some (duplicate_object id)
  | none ↦
      if leb max_objects s.live
      then some too_many_objects
      else if ltb (slot_index id) (length (slots s id))
      then none
      else if slot_index id == length (slots s id) && ltb (length (slots s id)) max_id_slots
      then none
      else some (sparse_id id)
]

-- The verdict of an insertion is the refusal, or none.
abbrev pub verdict : Result SessionError Objects → Option SessionError
verdict (ok _) = none
verdict (err e) = some e

get_elem?-none : (v : Slots) (i : ℕ) → get_elem? v i ≡ none → length v ≤ i
get_elem?-none [] i h = omega arith
get_elem?-none (x ∷ v) zero h = cc
get_elem?-none (x ∷ v) (suc i) h = omega (arith, get_elem?-none v i h)

verdict-slot :
    (s : Objects) (id : ℕ) (o : Obj) (e : Option (Option Obj))
    → get_elem? (slots s id) (slot_index id) ≡ e
    → verdict (do
      v' ← insert_slot e (leb max_objects s.live) (slots s id) (slot_index id) id o
      ok (with_slots s id v' (s.live + 1)))
      ≡ refusal s id
unfolding insert_slot get
verdict-slot s id o (some (some x)) at = ground (arith, at)
verdict-slot s id o (some none) at =
    ground (arith, at, get_elem?-lt (slots s id) (slot_index id) none at)
verdict-slot s id o none at = ground (arith, at, get_elem?-none (slots s id) (slot_index id) at)

-- An insertion is refused for a live id, then at the bound on live objects, then for an id that
-- skips past the slots in use or past their bound; and for nothing else.
pub insert-refusal : (s : Objects) (id : ℕ) (o : Obj) → verdict (insert s id o) ≡ refusal s id
unfolding insert
insert-refusal s id o = verdict-slot s id o (get_elem? (slots s id) (slot_index id)) refl

-- The id that the proxy takes for an object of its own is a server's, is free, and is accepted
-- while the bound on live objects is not met.
pub free_server_id-accepted :
    (s : Objects) (id : ℕ) (o : Obj)
    → free_server_id s ≡ some id
    → s.live < max_objects
    → (server_id_base ≤ id) × (get s id ≡ none) × (verdict (insert s id o) ≡ none)
unfolding free_server_id get
free_server_id-accepted s id o h room =
    let (free, near) = first_free-free s.server in
    (ground arith, ground (arith, free, near), insert-refusal s id o ∙ ground (arith, free, near))
