-- ===== src/Wlproxy/Failure.antt =====
-- `Dir` and `SessionError` of compositor/wlproxy/src/session.rs. What a message names (an
-- interface, a reason) stays with the error; an I/O error has no content here.
use kryptik_os.Common.{ℕ, Bytes}
use kryptik_os.Wlproxy.Wire.{WireError}

pub data Dir : Type 0 where
  client_to_server server_to_client : Dir

pub data SessionError : Type 0 where
  wire : WireError → SessionError
  unknown_object duplicate_object : ℕ → SessionError
  unknown_opcode : Bytes → ℕ → SessionError
  hidden_interface : Bytes → SessionError
  version_too_high : Bytes → ℕ → ℕ → SessionError
  id_out_of_range : ℕ → Dir → SessionError
  sparse_id : ℕ → SessionError
  too_many_objects : SessionError
  too_much_pending : Dir → SessionError
  too_many_fds : SessionError
  forbidden resource_limit : Bytes → SessionError
  io : SessionError
