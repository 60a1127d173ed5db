-- ===== src/Wlproxy/Tables/Core.antt =====
-- compositor/wlproxy/src/protocol_tables.rs: the signatures of the core objects.
use kryptik_os.Common.{true, false, some, none, [], ◌∷◌, ascii}
use kryptik_os.Wlproxy.Protocol.{int, uint, str, object, new_id, fd, message, Interface}

abbrev pub wl_display : Interface
wl_display = record {
  name = ascii "wl_display";
  version = 1;
  requests =
      message (ascii "sync") (new_id (some (ascii "wl_callback")) ∷ []) 0 1
      ∷ message (ascii "get_registry") (new_id (some (ascii "wl_registry")) ∷ []) 0 1
      ∷ [];
  events =
      message (ascii "error") (object false ∷ uint ∷ str false ∷ []) 0 1
      ∷ message (ascii "delete_id") (uint ∷ []) 0 1
      ∷ [];
}

abbrev pub wl_registry : Interface
wl_registry = record {
  name = ascii "wl_registry";
  version = 1;
  requests = message (ascii "bind") (uint ∷ new_id none ∷ []) 0 1 ∷ [];
  events =
      message (ascii "global") (uint ∷ str false ∷ uint ∷ []) 0 1
      ∷ message (ascii "global_remove") (uint ∷ []) 0 1
      ∷ [];
}

abbrev pub wl_callback : Interface
wl_callback = record {
  name = ascii "wl_callback";
  version = 1;
  requests = [];
  events = message (ascii "done") (uint ∷ []) 0 1 ∷ [];
}

abbrev pub wl_compositor : Interface
wl_compositor = record {
  name = ascii "wl_compositor";
  version = 7;
  requests =
      message (ascii "create_surface") (new_id (some (ascii "wl_surface")) ∷ []) 0 1
      ∷ message (ascii "create_region") (new_id (some (ascii "wl_region")) ∷ []) 0 1
      ∷ message (ascii "release") [] 0 7
      ∷ [];
  events = [];
}

abbrev pub wl_shm_pool : Interface
wl_shm_pool = record {
  name = ascii "wl_shm_pool";
  version = 3;
  requests =
      message (ascii "create_buffer")
        (new_id (some (ascii "wl_buffer")) ∷ int ∷ int ∷ int ∷ int ∷ uint ∷ []) 0 1
      ∷ message (ascii "destroy") [] 0 1
      ∷ message (ascii "resize") (int ∷ []) 0 1
      ∷ [];
  events = [];
}

abbrev pub wl_shm : Interface
wl_shm = record {
  name = ascii "wl_shm";
  version = 3;
  requests =
      message (ascii "create_pool") (new_id (some (ascii "wl_shm_pool")) ∷ fd ∷ int ∷ []) 1 1
      ∷ message (ascii "release") [] 0 2
      ∷ [];
  events = message (ascii "format") (uint ∷ []) 0 1 ∷ [];
}

abbrev pub wl_buffer : Interface
wl_buffer = record {
  name = ascii "wl_buffer";
  version = 1;
  requests = message (ascii "destroy") [] 0 1 ∷ [];
  events = message (ascii "release") [] 0 1 ∷ [];
}

abbrev pub wl_shell : Interface
wl_shell = record {
  name = ascii "wl_shell";
  version = 1;
  requests =
      message (ascii "get_shell_surface")
        (new_id (some (ascii "wl_shell_surface")) ∷ object false ∷ []) 0 1
      ∷ [];
  events = [];
}

abbrev pub wl_shell_surface : Interface
wl_shell_surface = record {
  name = ascii "wl_shell_surface";
  version = 1;
  requests =
      message (ascii "pong") (uint ∷ []) 0 1
      ∷ message (ascii "move") (object false ∷ uint ∷ []) 0 1
      ∷ message (ascii "resize") (object false ∷ uint ∷ uint ∷ []) 0 1
      ∷ message (ascii "set_toplevel") [] 0 1
      ∷ message (ascii "set_transient") (object false ∷ int ∷ int ∷ uint ∷ []) 0 1
      ∷ message (ascii "set_fullscreen") (uint ∷ uint ∷ object true ∷ []) 0 1
      ∷ message (ascii "set_popup") (object false ∷ uint ∷ object false ∷ int ∷ int ∷ uint ∷ []) 0 1
      ∷ message (ascii "set_maximized") (object true ∷ []) 0 1
      ∷ message (ascii "set_title") (str false ∷ []) 0 1
      ∷ message (ascii "set_class") (str false ∷ []) 0 1
      ∷ [];
  events =
      message (ascii "ping") (uint ∷ []) 0 1
      ∷ message (ascii "configure") (uint ∷ int ∷ int ∷ []) 0 1
      ∷ message (ascii "popup_done") [] 0 1
      ∷ [];
}

abbrev pub wl_surface : Interface
wl_surface = record {
  name = ascii "wl_surface";
  version = 7;
  requests =
      message (ascii "destroy") [] 0 1
      ∷ message (ascii "attach") (object true ∷ int ∷ int ∷ []) 0 1
      ∷ message (ascii "damage") (int ∷ int ∷ int ∷ int ∷ []) 0 1
      ∷ message (ascii "frame") (new_id (some (ascii "wl_callback")) ∷ []) 0 1
      ∷ message (ascii "set_opaque_region") (object true ∷ []) 0 1
      ∷ message (ascii "set_input_region") (object true ∷ []) 0 1
      ∷ message (ascii "commit") [] 0 1
      ∷ message (ascii "set_buffer_transform") (int ∷ []) 0 2
      ∷ message (ascii "set_buffer_scale") (int ∷ []) 0 3
      ∷ message (ascii "damage_buffer") (int ∷ int ∷ int ∷ int ∷ []) 0 4
      ∷ message (ascii "offset") (int ∷ int ∷ []) 0 5
      ∷ message (ascii "get_release") (new_id (some (ascii "wl_callback")) ∷ []) 0 7
      ∷ [];
  events =
      message (ascii "enter") (object false ∷ []) 0 1
      ∷ message (ascii "leave") (object false ∷ []) 0 1
      ∷ message (ascii "preferred_buffer_scale") (int ∷ []) 0 6
      ∷ message (ascii "preferred_buffer_transform") (uint ∷ []) 0 6
      ∷ [];
}

abbrev pub wl_region : Interface
wl_region = record {
  name = ascii "wl_region";
  version = 7;
  requests =
      message (ascii "destroy") [] 0 1
      ∷ message (ascii "add") (int ∷ int ∷ int ∷ int ∷ []) 0 1
      ∷ message (ascii "subtract") (int ∷ int ∷ int ∷ int ∷ []) 0 1
      ∷ [];
  events = [];
}

abbrev pub wl_subcompositor : Interface
wl_subcompositor = record {
  name = ascii "wl_subcompositor";
  version = 1;
  requests =
      message (ascii "destroy") [] 0 1
      ∷ message (ascii "get_subsurface")
          (new_id (some (ascii "wl_subsurface")) ∷ object false ∷ object false ∷ []) 0 1
      ∷ [];
  events = [];
}

abbrev pub wl_subsurface : Interface
wl_subsurface = record {
  name = ascii "wl_subsurface";
  version = 1;
  requests =
      message (ascii "destroy") [] 0 1
      ∷ message (ascii "set_position") (int ∷ int ∷ []) 0 1
      ∷ message (ascii "place_above") (object false ∷ []) 0 1
      ∷ message (ascii "place_below") (object false ∷ []) 0 1
      ∷ message (ascii "set_sync") [] 0 1
      ∷ message (ascii "set_desync") [] 0 1
      ∷ [];
  events = [];
}

abbrev pub wl_fixes : Interface
wl_fixes = record {
  name = ascii "wl_fixes";
  version = 2;
  requests =
      message (ascii "destroy") [] 0 1
      ∷ message (ascii "destroy_registry") (object false ∷ []) 0 1
      ∷ message (ascii "ack_global_remove") (object false ∷ uint ∷ []) 0 2
      ∷ [];
  events = [];
}
