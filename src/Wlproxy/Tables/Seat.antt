-- ===== src/Wlproxy/Tables/Seat.antt =====
-- compositor/wlproxy/src/protocol_tables.rs: the signatures of seats and outputs.
use kryptik_os.Common.{true, false, some, [], ◌∷◌, ascii}
use kryptik_os.Wlproxy.Protocol.{int, uint, fixed, str, object, new_id, arr, fd, message, Interface}

abbrev pub wl_seat : Interface
wl_seat = record {
  name = ascii "wl_seat";
  version = 11;
  requests =
      message (ascii "get_pointer") (new_id (some (ascii "wl_pointer")) ∷ []) 0 1
      ∷ message (ascii "get_keyboard") (new_id (some (ascii "wl_keyboard")) ∷ []) 0 1
      ∷ message (ascii "get_touch") (new_id (some (ascii "wl_touch")) ∷ []) 0 1
      ∷ message (ascii "release") [] 0 5
      ∷ [];
  events =
      message (ascii "capabilities") (uint ∷ []) 0 1
      ∷ message (ascii "name") (str false ∷ []) 0 2
      ∷ [];
}

abbrev pub wl_pointer : Interface
wl_pointer = record {
  name = ascii "wl_pointer";
  version = 11;
  requests =
      message (ascii "set_cursor") (uint ∷ object true ∷ int ∷ int ∷ []) 0 1
      ∷ message (ascii "release") [] 0 3
      ∷ [];
  events =
      message (ascii "enter") (uint ∷ object false ∷ fixed ∷ fixed ∷ []) 0 1
      ∷ message (ascii "leave") (uint ∷ object false ∷ []) 0 1
      ∷ message (ascii "motion") (uint ∷ fixed ∷ fixed ∷ []) 0 1
      ∷ message (ascii "button") (uint ∷ uint ∷ uint ∷ uint ∷ []) 0 1
      ∷ message (ascii "axis") (uint ∷ uint ∷ fixed ∷ []) 0 1
      ∷ message (ascii "frame") [] 0 5
      ∷ message (ascii "axis_source") (uint ∷ []) 0 5
      ∷ message (ascii "axis_stop") (uint ∷ uint ∷ []) 0 5
      ∷ message (ascii "axis_discrete") (uint ∷ int ∷ []) 0 5
      ∷ message (ascii "axis_value120") (uint ∷ int ∷ []) 0 8
      ∷ message (ascii "axis_relative_direction") (uint ∷ uint ∷ []) 0 9
      ∷ message (ascii "warp") (fixed ∷ fixed ∷ []) 0 11
      ∷ [];
}

abbrev pub wl_keyboard : Interface
wl_keyboard = record {
  name = ascii "wl_keyboard";
  version = 11;
  requests = message (ascii "release") [] 0 3 ∷ [];
  events =
      message (ascii "keymap") (uint ∷ fd ∷ uint ∷ []) 1 1
      ∷ message (ascii "enter") (uint ∷ object false ∷ arr ∷ []) 0 1
      ∷ message (ascii "leave") (uint ∷ object false ∷ []) 0 1
      ∷ message (ascii "key") (uint ∷ uint ∷ uint ∷ uint ∷ []) 0 1
      ∷ message (ascii "modifiers") (uint ∷ uint ∷ uint ∷ uint ∷ uint ∷ []) 0 1
      ∷ message (ascii "repeat_info") (int ∷ int ∷ []) 0 4
      ∷ [];
}

abbrev pub wl_touch : Interface
wl_touch = record {
  name = ascii "wl_touch";
  version = 11;
  requests = message (ascii "release") [] 0 3 ∷ [];
  events =
      message (ascii "down") (uint ∷ uint ∷ object false ∷ int ∷ fixed ∷ fixed ∷ []) 0 1
      ∷ message (ascii "up") (uint ∷ uint ∷ int ∷ []) 0 1
      ∷ message (ascii "motion") (uint ∷ int ∷ fixed ∷ fixed ∷ []) 0 1
      ∷ message (ascii "frame") [] 0 1
      ∷ message (ascii "cancel") [] 0 1
      ∷ message (ascii "shape") (int ∷ fixed ∷ fixed ∷ []) 0 6
      ∷ message (ascii "orientation") (int ∷ fixed ∷ []) 0 6
      ∷ [];
}

abbrev pub wl_output : Interface
wl_output = record {
  name = ascii "wl_output";
  version = 4;
  requests = message (ascii "release") [] 0 3 ∷ [];
  events =
      message (ascii "geometry") (int ∷ int ∷ int ∷ int ∷ int ∷ str false ∷ str false ∷ int ∷ []) 0
        1
      ∷ message (ascii "mode") (uint ∷ int ∷ int ∷ int ∷ []) 0 1
      ∷ message (ascii "done") [] 0 2
      ∷ message (ascii "scale") (int ∷ []) 0 2
      ∷ message (ascii "name") (str false ∷ []) 0 4
      ∷ message (ascii "description") (str false ∷ []) 0 4
      ∷ [];
}
