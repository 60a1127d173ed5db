-- ===== src/Wlproxy/Session.antt =====
-- `Session::lookup` and `Session::register` of compositor/wlproxy/src/session.rs, over the fields
-- of a session that they read and write.
pub mod Budgets
pub mod History
mod Tests
use kryptik_os.Common.{
  ℕ, zero, suc, and_then, ◌+◌, Bool, true, false, not, ◌&&◌, ◌||◌, Option, none, some, Result, ok,
  err, ◌>>=◌, ◌>>◌, ok_or, ltb, leb, ◌==◌, if◌then◌else◌, Bytes, ascii, eq_bytes, ◌++◌, [], ◌∷◌,
}
use kryptik_os.Wlproxy.Wire.{server_id_base}
use kryptik_os.Wlproxy.Protocol.{Interface, Message}
use kryptik_os.Wlproxy.Failure.{
  Dir, client_to_server, server_to_client, SessionError, unknown_object, unknown_opcode,
  hidden_interface, version_too_high, id_out_of_range, resource_limit,
}
use kryptik_os.Wlproxy.Objects.{Obj, Objects, get, insert, remove}
use kryptik_os.Wlproxy.Tables.{find, signature}

abbrev pub max_toplevels_per_session : ℕ
max_toplevels_per_session = 32

abbrev pub max_popups_per_session : ℕ
max_popups_per_session = 16

pub record Session : Type 0 where
  pub objects : Objects
  pub toplevels : ℕ
  pub popups : ℕ

-- The message's version against the object's.
unfoldable pub check_since : Interface → Message → ℕ → Result SessionError (Interface × Message × ℕ)
check_since iface m version =
    if ltb version m.since
    then err (version_too_high (iface.name ++ (ascii "." ++ m.name)) m.since version)
    else ok (iface, m, version)

-- `Session::lookup`
unfoldable pub lookup : Session → ℕ → Dir → ℕ → Result SessionError (Interface × Message × ℕ)
unfolding check_since
lookup s id dir opcode = do
  (iface, version) ← ok_or (get s.objects id) (unknown_object id)
  m ← ok_or (signature dir iface opcode) (unknown_opcode iface.name opcode)
  check_since iface m version

-- Whether a side may give an id to a new object.
abbrev pub in_range : Dir → ℕ → Bool
in_range client_to_server id = ltb id server_id_base && not (id == 0)
in_range server_to_client id = not (ltb id server_id_base) && not (id == 0)

abbrev pub is_toplevel : Interface → Bool
is_toplevel iface = eq_bytes iface.name (ascii "xdg_toplevel")

abbrev pub is_popup : Interface → Bool
is_popup iface = eq_bytes iface.name (ascii "xdg_popup")

-- The session after an accepted insertion.
abbrev pub counted : Session → Interface → Objects → Session
counted s iface objects = record {
  objects = objects;
  toplevels = if is_toplevel iface then s.toplevels + 1 else s.toplevels;
  popups =
      if is_toplevel iface then s.popups else if is_popup iface then s.popups + 1 else s.popups;
}

-- The budgets on windows and menus.
unfoldable pub within_budgets : Session → Interface → Result SessionError Bool
within_budgets s iface =
    if is_toplevel iface && leb max_toplevels_per_session s.toplevels
    then err (resource_limit (ascii "too many toplevels in one session"))
    else if is_popup iface && leb max_popups_per_session s.popups
    then err (resource_limit (ascii "too many popups in one session"))
    else ok true

-- `Session::register`, behind the check of the id's range.
unfoldable pub register_in_range : Session → ℕ → Bytes → ℕ → Result SessionError Session
register_in_range s id iface_name version = do
  iface ← ok_or (find iface_name) (hidden_interface iface_name)
  _ ← within_budgets s iface
  objects ← insert s.objects id (iface, version)
  ok (counted s iface objects)

-- `Session::register`
unfoldable pub register : Session → ℕ → Bytes → ℕ → Dir → Result SessionError Session
register s id iface_name version dir =
    if in_range dir id
    then register_in_range s id iface_name version
    else err (id_out_of_range id dir)

-- A count that goes down; none is an overflow.
abbrev pub less_one : Bool → ℕ → Option ℕ
less_one false n = some n
less_one true zero = none
less_one true (suc n) = some n

-- An object's end (wl_display.delete_id): its budget and its place are free again.
abbrev pub delete_at : Option Obj → Session → ℕ → Option Session
delete_at none s id = some (record s { objects = remove s.objects id })
delete_at (some (iface, version)) s id =
    and_then (less_one (is_toplevel iface) s.toplevels) λ toplevels.
      and_then (less_one (not (is_toplevel iface) && is_popup iface) s.popups) λ popups.
        some (record { objects = remove s.objects id; toplevels = toplevels; popups = popups })

unfoldable pub delete_object : Session → ℕ → Option Session
delete_object s id = delete_at (get s.objects id) s id
