-- ===== src/Wlproxy/Tables/Data.antt =====
-- compositor/wlproxy/src/protocol_tables.rs: the signatures of the data device.
use kryptik_os.Common.{true, false, some, [], ◌∷◌, ascii}
use kryptik_os.Wlproxy.Protocol.{uint, fixed, str, object, new_id, fd, message, Interface}

abbrev pub wl_data_offer : Interface
wl_data_offer = record {
  name = ascii "wl_data_offer";
  version = 4;
  requests =
      message (ascii "accept") (uint ∷ str true ∷ []) 0 1
      ∷ message (ascii "receive") (str false ∷ fd ∷ []) 1 1
      ∷ message (ascii "destroy") [] 0 1
      ∷ message (ascii "finish") [] 0 3
      ∷ message (ascii "set_actions") (uint ∷ uint ∷ []) 0 3
      ∷ [];
  events =
      message (ascii "offer") (str false ∷ []) 0 1
      ∷ message (ascii "source_actions") (uint ∷ []) 0 3
      ∷ message (ascii "action") (uint ∷ []) 0 3
      ∷ [];
}

abbrev pub wl_data_source : Interface
wl_data_source = record {
  name = ascii "wl_data_source";
  version = 4;
  requests =
      message (ascii "offer") (str false ∷ []) 0 1
      ∷ message (ascii "destroy") [] 0 1
      ∷ message (ascii "set_actions") (uint ∷ []) 0 3
      ∷ [];
  events =
      message (ascii "target") (str true ∷ []) 0 1
      ∷ message (ascii "send") (str false ∷ fd ∷ []) 1 1
      ∷ message (ascii "cancelled") [] 0 1
      ∷ message (ascii "dnd_drop_performed") [] 0 3
      ∷ message (ascii "dnd_finished") [] 0 3
      ∷ message (ascii "action") (uint ∷ []) 0 3
      ∷ [];
}

abbrev pub wl_data_device : Interface
wl_data_device = record {
  name = ascii "wl_data_device";
  version = 4;
  requests =
      message (ascii "start_drag") (object true ∷ object false ∷ object true ∷ uint ∷ []) 0 1
      ∷ message (ascii "set_selection") (object true ∷ uint ∷ []) 0 1
      ∷ message (ascii "release") [] 0 2
      ∷ [];
  events =
      message (ascii "data_offer") (new_id (some (ascii "wl_data_offer")) ∷ []) 0 1
      ∷ message (ascii "enter") (uint ∷ object false ∷ fixed ∷ fixed ∷ object true ∷ []) 0 1
      ∷ message (ascii "leave") [] 0 1
      ∷ message (ascii "motion") (uint ∷ fixed ∷ fixed ∷ []) 0 1
      ∷ message (ascii "drop") [] 0 1
      ∷ message (ascii "selection") (object true ∷ []) 0 1
      ∷ [];
}

abbrev pub wl_data_device_manager : Interface
wl_data_device_manager = record {
  name = ascii "wl_data_device_manager";
  version = 4;
  requests =
      message (ascii "create_data_source") (new_id (some (ascii "wl_data_source")) ∷ []) 0 1
      ∷ message (ascii "get_data_device")
          (new_id (some (ascii "wl_data_device")) ∷ object false ∷ []) 0 1
      ∷ message (ascii "release") [] 0 4
      ∷ [];
  events = [];
}
