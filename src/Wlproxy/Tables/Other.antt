-- ===== src/Wlproxy/Tables/Other.antt =====
-- compositor/wlproxy/src/protocol_tables.rs: the signatures of the other extensions.
use kryptik_os.Common.{false, some, [], ◌∷◌, ascii}
use kryptik_os.Wlproxy.Protocol.{int, uint, fixed, object, new_id, message, Interface}

abbrev pub zxdg_decoration_manager_v1 : Interface
zxdg_decoration_manager_v1 = record {
  name = ascii "zxdg_decoration_manager_v1";
  version = 2;
  requests =
      message (ascii "destroy") [] 0 1
      ∷ message (ascii "get_toplevel_decoration")
          (new_id (some (ascii "zxdg_toplevel_decoration_v1")) ∷ object false ∷ []) 0 1
      ∷ [];
  events = [];
}

abbrev pub zxdg_toplevel_decoration_v1 : Interface
zxdg_toplevel_decoration_v1 = record {
  name = ascii "zxdg_toplevel_decoration_v1";
  version = 2;
  requests =
      message (ascii "destroy") [] 0 1
      ∷ message (ascii "set_mode") (uint ∷ []) 0 1
      ∷ message (ascii "unset_mode") [] 0 1
      ∷ [];
  events = message (ascii "configure") (uint ∷ []) 0 1 ∷ [];
}

abbrev pub wp_viewporter : Interface
wp_viewporter = record {
  name = ascii "wp_viewporter";
  version = 1;
  requests =
      message (ascii "destroy") [] 0 1
      ∷ message (ascii "get_viewport") (new_id (some (ascii "wp_viewport")) ∷ object false ∷ []) 0 1
      ∷ [];
  events = [];
}

abbrev pub wp_viewport : Interface
wp_viewport = record {
  name = ascii "wp_viewport";
  version = 1;
  requests =
      message (ascii "destroy") [] 0 1
      ∷ message (ascii "set_source") (fixed ∷ fixed ∷ fixed ∷ fixed ∷ []) 0 1
      ∷ message (ascii "set_destination") (int ∷ int ∷ []) 0 1
      ∷ [];
  events = [];
}

abbrev pub wp_cursor_shape_manager_v1 : Interface
wp_cursor_shape_manager_v1 = record {
  name = ascii "wp_cursor_shape_manager_v1";
  version = 2;
  requests =
      message (ascii "destroy") [] 0 1
      ∷ message (ascii "get_pointer")
          (new_id (some (ascii "wp_cursor_shape_device_v1")) ∷ object false ∷ []) 0 1
      ∷ message (ascii "get_tablet_tool_v2")
          (new_id (some (ascii "wp_cursor_shape_device_v1")) ∷ object false ∷ []) 0 1
      ∷ [];
  events = [];
}

abbrev pub wp_cursor_shape_device_v1 : Interface
wp_cursor_shape_device_v1 = record {
  name = ascii "wp_cursor_shape_device_v1";
  version = 2;
  requests =
      message (ascii "destroy") [] 0 1 ∷ message (ascii "set_shape") (uint ∷ uint ∷ []) 0 1 ∷ [];
  events = [];
}

abbrev pub wp_fractional_scale_manager_v1 : Interface
wp_fractional_scale_manager_v1 = record {
  name = ascii "wp_fractional_scale_manager_v1";
  version = 1;
  requests =
      message (ascii "destroy") [] 0 1
      ∷ message (ascii "get_fractional_scale")
          (new_id (some (ascii "wp_fractional_scale_v1")) ∷ object false ∷ []) 0 1
      ∷ [];
  events = [];
}

abbrev pub wp_fractional_scale_v1 : Interface
wp_fractional_scale_v1 = record {
  name = ascii "wp_fractional_scale_v1";
  version = 1;
  requests = message (ascii "destroy") [] 0 1 ∷ [];
  events = message (ascii "preferred_scale") (uint ∷ []) 0 1 ∷ [];
}

abbrev pub zwp_idle_inhibit_manager_v1 : Interface
zwp_idle_inhibit_manager_v1 = record {
  name = ascii "zwp_idle_inhibit_manager_v1";
  version = 1;
  requests =
      message (ascii "destroy") [] 0 1
      ∷ message (ascii "create_inhibitor")
          (new_id (some (ascii "zwp_idle_inhibitor_v1")) ∷ object false ∷ []) 0 1
      ∷ [];
  events = [];
}

abbrev pub zwp_idle_inhibitor_v1 : Interface
zwp_idle_inhibitor_v1 = record {
  name = ascii "zwp_idle_inhibitor_v1";
  version = 1;
  requests = message (ascii "destroy") [] 0 1 ∷ [];
  events = [];
}
