-- ===== src/Wlproxy/Protocol.antt =====
-- compositor/wlproxy/src/protocol.rs: message signatures, and the decoding of a body by its own.
pub mod Encoding
pub mod Named
pub mod Sound
use kryptik_os.Common.{
  ℕ, ◌-◌, Bool, not, Option, none, some, List, [], ◌∷◌, ◌++◌, Result, ok, err, ◌>>=◌, ◌>>◌, ok_or,
  if◌then◌else◌, length, Bytes,
}
use kryptik_os.Wlproxy.Wire.{
  WireError, arg_overrun, second_new_id, null_string, ArgReader, new_reader, remaining, is_empty,
  u32, string, array,
}

-- One argument. The interface of a new object is none for wl_registry.bind.
pub data Arg : Type 0 where
  int uint fixed : Arg
  str : Bool → Arg
  object : Bool → Arg
  new_id : Option Bytes → Arg
  arr : Arg
  fd : Arg

pub record Message : Type 0 where
  pub name : Bytes
  pub args : List Arg
  pub fds : ℕ
  pub since : ℕ

abbrev pub message : Bytes → List Arg → ℕ → ℕ → Message
message name args fds since = record { name = name; args = args; fds = fds; since = since }

pub record Interface : Type 0 where
  pub name : Bytes
  pub version : ℕ
  pub requests : List Message
  pub events : List Message

pub record Decoded : Type 0 where
  pub new_object : Option (ℕ × Bytes)
  pub strings : List (ℕ × Bytes)
  pub bind_version : Option ℕ

abbrev pub nothing : Decoded
nothing = record { new_object = none; strings = []; bind_version = none }

created_in : Option (ℕ × Bytes) → Decoded → ℕ → Bytes → Result WireError Decoded
created_in (some _) d id name = err second_new_id
created_in none d id name = ok (record d { new_object = some (id, name) })

-- `Decoded::created`
pub created : Decoded → ℕ → Bytes → Result WireError Decoded
unfolding created_in
created d id name = created_in d.new_object d id name

-- The string's case: its place, its value, and whether it may be null.
pub note_string : Decoded → ℕ → Bool → Option Bytes → Result WireError Decoded
note_string d place nullable (some s) = ok (record d { strings = d.strings ++ (place, s) ∷ [] })
note_string d place nullable none = if nullable then ok d else err null_string

skip_u32 : ArgReader → Decoded → Result WireError (ArgReader × Decoded)
skip_u32 r d = do (_, r') ← u32 r; ok (r', d)

-- One turn of the loop of `decode`.
pub decode_arg : Arg → ArgReader → Decoded → Result WireError (ArgReader × Decoded)
unfolding skip_u32
decode_arg int r d = skip_u32 r d
decode_arg uint r d = skip_u32 r d
decode_arg fixed r d = skip_u32 r d
decode_arg (object nullable) r d = skip_u32 r d
decode_arg (str nullable) r d = do
  let place = length r.body - remaining r
  (s, r') ← string r
  d' ← note_string d place nullable s
  ok (r', d')
decode_arg arr r d = do (_, r') ← array r; ok (r', d)
decode_arg (new_id (some name)) r d = do (id, r') ← u32 r; d' ← created d id name; ok (r', d')
decode_arg (new_id none) r d = do
  (o, r1) ← string r
  name ← ok_or o null_string
  (version, r2) ← u32 r1
  (id, r3) ← u32 r2
  d' ← created (record d { bind_version = some version }) id name
  ok (r3, d')
decode_arg fd r d = ok (r, d)

pub decode_args : List Arg → ArgReader → Decoded → Result WireError (ArgReader × Decoded)
decode_args [] r d = ok (r, d)
decode_args (arg ∷ args) r d = do (r', d') ← decode_arg arg r d; decode_args args r' d'

pub decode : Message → Bytes → Result WireError Decoded
decode msg body = do
  (r, d) ← decode_args msg.args (new_reader body) nothing
  if not (is_empty r) then err arg_overrun else ok d

-- `Message::fd_count`
abbrev pub fd_count : Message → ℕ
fd_count m = m.fds
