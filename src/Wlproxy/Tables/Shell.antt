-- ===== src/Wlproxy/Tables/Shell.antt =====
-- compositor/wlproxy/src/protocol_tables.rs: the signatures of xdg-shell.
use kryptik_os.Common.{true, false, some, [], ◌∷◌, ascii}
use kryptik_os.Wlproxy.Protocol.{int, uint, str, object, new_id, arr, message, Interface}

abbrev pub xdg_wm_base : Interface
xdg_wm_base = record {
  name = ascii "xdg_wm_base";
  version = 7;
  requests =
      message (ascii "destroy") [] 0 1
      ∷ message (ascii "create_positioner") (new_id (some (ascii "xdg_positioner")) ∷ []) 0 1
      ∷ message (ascii "get_xdg_surface") (new_id (some (ascii "xdg_surface")) ∷ object false ∷ [])
          0 1
      ∷ message (ascii "pong") (uint ∷ []) 0 1
      ∷ [];
  events = message (ascii "ping") (uint ∷ []) 0 1 ∷ [];
}

abbrev pub xdg_positioner : Interface
xdg_positioner = record {
  name = ascii "xdg_positioner";
  version = 7;
  requests =
      message (ascii "destroy") [] 0 1
      ∷ message (ascii "set_size") (int ∷ int ∷ []) 0 1
      ∷ message (ascii "set_anchor_rect") (int ∷ int ∷ int ∷ int ∷ []) 0 1
      ∷ message (ascii "set_anchor") (uint ∷ []) 0 1
      ∷ message (ascii "set_gravity") (uint ∷ []) 0 1
      ∷ message (ascii "set_constraint_adjustment") (uint ∷ []) 0 1
      ∷ message (ascii "set_offset") (int ∷ int ∷ []) 0 1
      ∷ message (ascii "set_reactive") [] 0 3
      ∷ message (ascii "set_parent_size") (int ∷ int ∷ []) 0 3
      ∷ message (ascii "set_parent_configure") (uint ∷ []) 0 3
      ∷ [];
  events = [];
}

abbrev pub xdg_surface : Interface
xdg_surface = record {
  name = ascii "xdg_surface";
  version = 7;
  requests =
      message (ascii "destroy") [] 0 1
      ∷ message (ascii "get_toplevel") (new_id (some (ascii "xdg_toplevel")) ∷ []) 0 1
      ∷ message (ascii "get_popup")
          (new_id (some (ascii "xdg_popup")) ∷ object true ∷ object false ∷ []) 0 1
      ∷ message (ascii "set_window_geometry") (int ∷ int ∷ int ∷ int ∷ []) 0 1
      ∷ message (ascii "ack_configure") (uint ∷ []) 0 1
      ∷ [];
  events = message (ascii "configure") (uint ∷ []) 0 1 ∷ [];
}

abbrev pub xdg_toplevel : Interface
xdg_toplevel = record {
  name = ascii "xdg_toplevel";
  version = 7;
  requests =
      message (ascii "destroy") [] 0 1
      ∷ message (ascii "set_parent") (object true ∷ []) 0 1
      ∷ message (ascii "set_title") (str false ∷ []) 0 1
      ∷ message (ascii "set_app_id") (str false ∷ []) 0 1
      ∷ message (ascii "show_window_menu") (object false ∷ uint ∷ int ∷ int ∷ []) 0 1
      ∷ message (ascii "move") (object false ∷ uint ∷ []) 0 1
      ∷ message (ascii "resize") (object false ∷ uint ∷ uint ∷ []) 0 1
      ∷ message (ascii "set_max_size") (int ∷ int ∷ []) 0 1
      ∷ message (ascii "set_min_size") (int ∷ int ∷ []) 0 1
      ∷ message (ascii "set_maximized") [] 0 1
      ∷ message (ascii "unset_maximized") [] 0 1
      ∷ message (ascii "set_fullscreen") (object true ∷ []) 0 1
      ∷ message (ascii "unset_fullscreen") [] 0 1
      ∷ message (ascii "set_minimized") [] 0 1
      ∷ [];
  events =
      message (ascii "configure") (int ∷ int ∷ arr ∷ []) 0 1
      ∷ message (ascii "close") [] 0 1
      ∷ message (ascii "configure_bounds") (int ∷ int ∷ []) 0 4
      ∷ message (ascii "wm_capabilities") (arr ∷ []) 0 5
      ∷ [];
}

abbrev pub xdg_popup : Interface
xdg_popup = record {
  name = ascii "xdg_popup";
  version = 7;
  requests =
      message (ascii "destroy") [] 0 1
      ∷ message (ascii "grab") (object false ∷ uint ∷ []) 0 1
      ∷ message (ascii "reposition") (object false ∷ uint ∷ []) 0 3
      ∷ [];
  events =
      message (ascii "configure") (int ∷ int ∷ int ∷ int ∷ []) 0 1
      ∷ message (ascii "popup_done") [] 0 1
      ∷ message (ascii "repositioned") (uint ∷ []) 0 3
      ∷ [];
}
