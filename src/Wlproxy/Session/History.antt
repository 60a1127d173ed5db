-- ===== src/Wlproxy/Session/History.antt =====
-- `Session::new` of compositor/wlproxy/src/session.rs, and the histories of a connection: the
-- changes of its objects, and what they say of an id.
pub mod Counts
use mathlib.Core.Option.{some-injective}
use kryptik_os.Common.{
  ℕ, zero, suc, and_then, and_then-some, not, ◌&&◌, ◌≤◌, ◌≡◌, ◌↔◌, refl, sym, ◌∙◌, ap, arith, Bool,
  true, false, List, [], ◌∷◌, Option, none, some, Result, ok, err, ok_or, >>=-eq-ok, ok-eq, ltb,
  ◌==◌, if◌then◌else◌, Bytes, ascii, get_elem?, inl, inr, Bool-cases,
}
use kryptik_os.Wlproxy.Wire.{server_id_base}
use kryptik_os.Wlproxy.Protocol.{Interface, Message}
use kryptik_os.Wlproxy.Failure.{
  Dir, client_to_server, server_to_client, SessionError, hidden_interface, unknown_object,
  unknown_opcode,
}
use kryptik_os.Wlproxy.Objects.{Obj, new_objects, get, insert, remove}
use kryptik_os.Wlproxy.Objects.Lookup.{get-insert, get-remove}
use kryptik_os.Wlproxy.Tables.{find, signature}
use kryptik_os.Wlproxy.Tables.Core.{wl_display}
use kryptik_os.Wlproxy.Tables.Known.{find-IsKnown}
use kryptik_os.Wlproxy.Session.{
  Session, lookup, check_since, register, register_in_range, in_range, within_budgets, delete_at,
  delete_object, less_one, is_toplevel, is_popup,
}
use kryptik_os.Wlproxy.Session.Budgets.{if-ok, check_since-ok}

-- `Session::new`: the display is object 1, and there is nothing else. None is the panic of a table
-- without a display.
unfoldable pub new_session : Option Session
new_session =
    and_then (find (ascii "wl_display"))
      λ display. some (record { objects = new_objects (display, 1); toplevels = 0; popups = 0 })

-- What changes the objects of a session. The proxy's own removals, of objects that the clipboard
-- serves, are deletions too: those are neither windows nor menus.
pub data Change : Type 0 where
  registered : ℕ → Bytes → ℕ → Dir → Change
  deleted : ℕ → Change

abbrev pub accepted : Result SessionError Session → Option Session
accepted (ok s) = some s
accepted (err _) = none

-- The session after changes, the last one first, if all of them were accepted.
unfoldable pub run : List Change → Option Session
run [] = new_session
run (registered id name version dir ∷ cs) =
    and_then (run cs) λ s. accepted (register s id name version dir)
run (deleted id ∷ cs) = and_then (run cs) λ s. delete_object s id

-- The name and the version that an id was last given, if it was not deleted since.
abbrev pub latest : List Change → ℕ → Option (Bytes × ℕ)
latest [] j = if j == 1 then some (ascii "wl_display", 1) else none
latest (registered id name version dir ∷ cs) j =
    if id == j then some (name, version) else latest cs j
latest (deleted id ∷ cs) j = if id == j then none else latest cs j

-- A client sends the requests of an interface, the compositor its events.
abbrev pub HasMessage : Dir → Interface → ℕ → Message → Type 0
HasMessage client_to_server i opcode m = get_elem? i.requests opcode ≡ some m
HasMessage server_to_client i opcode m = get_elem? i.events opcode ≡ some m

-- The object of a name and a version.
resolve : Option (Bytes × ℕ) → Option Obj
resolve none = none
resolve (some (name, version)) = and_then (find name) λ i. some (i, version)

display-found : find (ascii "wl_display") ≡ some wl_display
unfolding find
display-found = refl

abbrev pub opened : Session
opened = record {
  objects = record { client = none ∷ some (wl_display, 1) ∷ []; server = []; live = 1 };
  toplevels = 0;
  popups = 0;
}

pub new_session-opened : new_session ≡ some opened
unfolding new_session new_objects
new_session-opened = rw display-found refl

opened-get : (j : ℕ) → get opened.objects j ≡ (if j == 1 then some (wl_display, 1) else none)
unfolding get
opened-get zero = refl
opened-get (suc zero) = refl
opened-get (suc (suc j)) = elim (Bool-cases (ltb (suc (suc j)) server_id_base)) [
  | inl hit ↦ ground (arith, hit)
  | inr miss ↦ ground (arith, miss)
]

resolve-display :
    (b : Bool)
    → resolve (if b then some (ascii "wl_display", 1) else none)
      ≡ (if b then some (wl_display, 1) else none)
unfolding resolve
resolve-display true = rw display-found refl
resolve-display false = refl

register-get :
    (s s' : Session) (id : ℕ) (name : Bytes) (version : ℕ) (dir : Dir) (j : ℕ)
    → register s id name version dir ≡ ok s'
    → get s'.objects j ≡ (if id == j then resolve (some (name, version)) else get s.objects j)
unfolding register register_in_range resolve
register-get s s' id name version dir j h =
    let (inside, made) = if-ok (in_range dir id) _ _ s' h in
    let (iface, sought, h1) = >>=-eq-ok (ok_or (find name) (hidden_interface name)) _ made in
    let (b, room, h2) = >>=-eq-ok (within_budgets s iface) _ h1 in
    let (objects, put, e) = >>=-eq-ok (insert s.objects id (iface, version)) _ h2 in
    let found : find name ≡ some iface = ground (arith, sought) in
    rw (← ok-eq e, found) ((get-insert s.objects objects id (iface, version) put).0 j)

delete_at-objects :
    (o : Option Obj) (s s' : Session) (id : ℕ)
    → delete_at o s id ≡ some s'
    → s'.objects ≡ remove s.objects id
delete_at-objects none s s' id h = ground (arith, h)
delete_at-objects (some (iface, version)) s s' id h =
    let (toplevels, top, h1) = and_then-some (less_one (is_toplevel iface) s.toplevels) _ h in
    let (popups, menu, h2) =
      and_then-some (less_one (not (is_toplevel iface) && is_popup iface) s.popups) _ h1 in
    ap (λ (x : Session). x.objects) (sym (some-injective _ s' h2))

delete_object-get :
    (s s' : Session) (id j : ℕ)
    → delete_object s id ≡ some s'
    → get s'.objects j ≡ (if id == j then none else get s.objects j)
unfolding delete_object
delete_object-get s s' id j h =
    rw (delete_at-objects (get s.objects id) s s' id h) (get-remove s.objects id j)

pub accepted-some : (m : Result SessionError Session) (s : Session) → accepted m ≡ some s → m ≡ ok s
accepted-some (ok s') s h = ap ok (some-injective s' s h)
accepted-some (err e) s h = cc

resolve-if :
    (b : Bool) (o p : Option (Bytes × ℕ))
    → (if b then resolve o else resolve p) ≡ resolve (if b then o else p)
resolve-if true o p = refl
resolve-if false o p = refl

resolve-if_none :
    (b : Bool) (p : Option (Bytes × ℕ))
    → (if b then none else resolve p) ≡ resolve (if b then none else p)
unfolding resolve
resolve-if_none true p = refl
resolve-if_none false p = refl

-- After every history, the object map holds what the history says.
run-get :
    (cs : List Change) (s : Session) (j : ℕ)
    → run cs ≡ some s
    → get s.objects j ≡ resolve (latest cs j)
unfolding run
run-get [] s j h =
    let same = some-injective opened s (sym new_session-opened ∙ h) in
    rw (← same) (opened-get j ∙ sym (resolve-display (j == 1)))
run-get (registered id name version dir ∷ cs) s j h =
    let (s0, before, e) = and_then-some (run cs) _ h in
    let made = accepted-some (register s0 id name version dir) s e in
    register-get s0 s id name version dir j made
    ∙ (ap (λ (o : Option Obj). if id == j then resolve (some (name, version)) else o)
          (run-get cs s0 j before)
        ∙ resolve-if (id == j) (some (name, version)) (latest cs j))
run-get (deleted id ∷ cs) s j h =
    let (s0, before, e) = and_then-some (run cs) _ h in
    delete_object-get s0 s id j e
    ∙ (ap (λ (o : Option Obj). if id == j then none else o) (run-get cs s0 j before)
        ∙ resolve-if_none (id == j) (latest cs j))

resolve-some :
    (o : Option (Bytes × ℕ)) (i : Interface) (v : ℕ)
    → resolve o ≡ some (i, v)
    → (o ≡ some (i.name, v)) × (find i.name ≡ some i)
unfolding resolve
resolve-some none i v h = cc
resolve-some (some (name, version)) i v h =
    let (i', found, e) = and_then-some (find name) _ h in
    let pair = some-injective (i', version) (i, v) e in
    let same : i' ≡ i = ap (λ (o : Obj). o.0) pair in
    let old : version ≡ v = ap (λ (o : Obj). o.1) pair in
    let named : i.name ≡ name =
      ap (λ (x : Interface). x.name) (sym same) ∙ (find-IsKnown name i' found).0 in
    (rw (named, old) refl, ap find named ∙ (found ∙ ap some same))

some-resolve :
    (o : Option (Bytes × ℕ)) (i : Interface) (v : ℕ)
    → o ≡ some (i.name, v)
    → find i.name ≡ some i
    → resolve o ≡ some (i, v)
unfolding resolve
some-resolve o i v told found = rw (told, found) refl

signature-HasMessage :
    (dir : Dir) (i : Interface) (opcode : ℕ) (m : Message)
    → (signature dir i opcode ≡ some m) ↔ HasMessage dir i opcode m
signature-HasMessage client_to_server i opcode m = (λ h. h, λ h. h)
signature-HasMessage server_to_client i opcode m = (λ h. h, λ h. h)

module _ (s : Session) (j : ℕ) (dir : Dir) (opcode : ℕ) (i : Interface) (m : Message) (v : ℕ) where
  lookup-eq-ok :
      lookup s j dir opcode ≡ ok (i, m, v)
      → (get s.objects j ≡ some (i, v)) × (signature dir i opcode ≡ some m) × (m.since ≤ v)
  unfolding lookup
  lookup-eq-ok h =
      let ((i', v'), there, h1) = >>=-eq-ok (ok_or (get s.objects j) (unknown_object j)) _ h in
      let (n, signed, h2) =
        >>=-eq-ok (ok_or (signature dir i' opcode) (unknown_opcode i'.name opcode)) _ h1 in
      let (same_i, same_n, same_v, old) = check_since-ok i' i n m v' v h2 in
      let live : get s.objects j ≡ some (i', v') = ground (arith, there) in
      let sig : signature dir i' opcode ≡ some n = ground (arith, signed) in
      rw (← same_i, ← same_n, ← same_v) (live, sig, old)

  eq-ok-lookup :
      get s.objects j ≡ some (i, v)
      → signature dir i opcode ≡ some m
      → m.since ≤ v
      → lookup s j dir opcode ≡ ok (i, m, v)
  unfolding lookup check_since
  eq-ok-lookup live sig old = rw (live, sig) (ground arith)

-- After every accepted history, a message is looked up exactly if its object's id was last given
-- the name of its interface at its version and not deleted since, the tables know that name as
-- that interface, the interface has the message for the sender's side (requests from the client,
-- events from the compositor), and the message is no newer than the object.
pub run-lookup :
    (cs : List Change) (s : Session) (j : ℕ) (dir : Dir) (opcode : ℕ) (i : Interface) (m : Message)
    (v : ℕ)
    → run cs ≡ some s
    → (lookup s j dir opcode ≡ ok (i, m, v)) ↔ (
        (latest cs j ≡ some (i.name, v))
        × (find i.name ≡ some i)
        × HasMessage dir i opcode m
        × (m.since ≤ v))
run-lookup cs s j dir opcode i m v h =
    let held = run-get cs s j h in
    let message = signature-HasMessage dir i opcode m in
    (
      λ found.
          let (live, sig, old) = lookup-eq-ok s j dir opcode i m v found in
          let (told, known) = resolve-some (latest cs j) i v (sym held ∙ live) in
          (told, known, message.0 sig, old),
      λ (told, known, has, old).
          eq-ok-lookup s j dir opcode i m v (held ∙ some-resolve (latest cs j) i v told known)
            (message.1 has) old,
    )
