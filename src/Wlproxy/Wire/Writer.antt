-- ===== src/Wlproxy/Wire/Writer.antt =====
-- `MessageWriter` of compositor/wlproxy/src/wire.rs.
use kryptik_os.Common.{
  ℕ, ◌+◌, ◌-◌, ◌%◌, ◌^◌, ◌||◌, Option, none, some, [], ◌∷◌, ◌++◌, ltb, if◌then◌else◌, length,
  replicate, Bytes, u32_mod, to_ne_bytes,
}
use kryptik_os.Wlproxy.Wire.{header_len, max_message_len, encode}

pub record MessageWriter : Type 0 where
  pub object : ℕ
  pub opcode : ℕ
  pub body : Bytes

abbrev pub new_writer : ℕ → ℕ → MessageWriter
new_writer object opcode = record { object = object; opcode = opcode; body = [] }

unfoldable pub u32 : MessageWriter → ℕ → MessageWriter
unfolding to_ne_bytes
u32 w v = record w { body = w.body ++ to_ne_bytes v }

-- The zeros that the `while` loop pushes: as many as a multiple of four wants.
abbrev pub padding : ℕ → Bytes
padding len = replicate ((4 - len % 4) % 4) 0

unfoldable pub string : MessageWriter → Bytes → MessageWriter
unfolding to_ne_bytes
string w s =
    let declared = length s + 1 in
    let body = w.body ++ (to_ne_bytes (declared % u32_mod) ++ (s ++ 0 ∷ [])) in
    record w { body = body ++ padding (length body) }

unfoldable pub finish : MessageWriter → Option Bytes
unfolding encode
finish w =
    let size = header_len + length w.body in
    if ltb max_message_len size || ltb (2 ^ 16 - 1) size
    then none
    else some (encode (record { object = w.object; opcode = w.opcode; size = size }) ++ w.body)
