-- ===== src/Wlproxy/Tables.antt =====
-- `INTERFACES` of compositor/wlproxy/src/protocol_tables.rs, and the search by name.
pub mod Core
pub mod Data
pub mod Seat
pub mod Shell
pub mod Other
pub mod Known
use kryptik_os.Common.{
  ℕ, get_elem?, Bytes, List, [], ◌∷◌, Option, none, some, eq_bytes, if◌then◌else◌,
}
use kryptik_os.Wlproxy.Protocol.{Interface, Message}
use kryptik_os.Wlproxy.Failure.{Dir, client_to_server, server_to_client}
use kryptik_os.Wlproxy.Tables.Core.{
  wl_display, wl_registry, wl_callback, wl_compositor, wl_shm_pool, wl_shm, wl_buffer, wl_shell,
  wl_shell_surface, wl_surface, wl_region, wl_subcompositor, wl_subsurface, wl_fixes,
}
use kryptik_os.Wlproxy.Tables.Data.{
  wl_data_offer, wl_data_source, wl_data_device, wl_data_device_manager,
}
use kryptik_os.Wlproxy.Tables.Seat.{wl_seat, wl_pointer, wl_keyboard, wl_touch, wl_output}
use kryptik_os.Wlproxy.Tables.Shell.{
  xdg_wm_base, xdg_positioner, xdg_surface, xdg_toplevel, xdg_popup,
}
use kryptik_os.Wlproxy.Tables.Other.{
  zxdg_decoration_manager_v1, zxdg_toplevel_decoration_v1, wp_viewporter, wp_viewport,
  wp_cursor_shape_manager_v1, wp_cursor_shape_device_v1, wp_fractional_scale_manager_v1,
  wp_fractional_scale_v1, zwp_idle_inhibit_manager_v1, zwp_idle_inhibitor_v1,
}

abbrev pub interfaces : List Interface
interfaces =
    wl_display ∷ wl_registry ∷ wl_callback ∷ wl_compositor ∷ wl_shm_pool ∷ wl_shm ∷ wl_buffer
    ∷ wl_data_offer ∷ wl_data_source ∷ wl_data_device ∷ wl_data_device_manager ∷ wl_shell
    ∷ wl_shell_surface ∷ wl_surface ∷ wl_seat ∷ wl_pointer ∷ wl_keyboard ∷ wl_touch ∷ wl_output
    ∷ wl_region ∷ wl_subcompositor ∷ wl_subsurface ∷ wl_fixes ∷ xdg_wm_base ∷ xdg_positioner
    ∷ xdg_surface ∷ xdg_toplevel ∷ xdg_popup ∷ zxdg_decoration_manager_v1
    ∷ zxdg_toplevel_decoration_v1 ∷ wp_viewporter ∷ wp_viewport ∷ wp_cursor_shape_manager_v1
    ∷ wp_cursor_shape_device_v1 ∷ wp_fractional_scale_manager_v1 ∷ wp_fractional_scale_v1
    ∷ zwp_idle_inhibit_manager_v1 ∷ zwp_idle_inhibitor_v1 ∷ []

-- A later interface of a name takes the place of an earlier one, as in the hash map.
abbrev pub later_of : Option Interface → Option Interface → Option Interface
later_of (some j) first = some j
later_of none first = first

abbrev pub find_in : List Interface → Bytes → Option Interface
find_in [] name = none
find_in (i ∷ is) name = later_of (find_in is name) (if eq_bytes i.name name then some i else none)

-- `protocol::find`
unfoldable pub find : Bytes → Option Interface
find name = find_in interfaces name

-- The signature of an opcode: a request's from the client, an event's from the compositor.
abbrev pub signature : Dir → Interface → ℕ → Option Message
signature client_to_server i opcode = get_elem? i.requests opcode
signature server_to_client i opcode = get_elem? i.events opcode
