-- ===== src/Wlproxy/Wire.antt =====
-- compositor/wlproxy/src/wire.rs: the Wayland wire format. Bytes are numbers, a text is its UTF-8
-- bytes, and native order is little-endian. A reader's failure ends the reading of its message, so
-- the reader is threaded through the successful results alone.
pub mod Writer
pub mod Headers
pub mod Reader
pub mod Texts
pub mod Bounds
pub mod Messages
use kryptik_os.Common.{
  ℕ, zero, suc, ◌+◌, ◌-◌, ◌*◌, ◌/◌, ◌%◌, ◌^◌, Bool, true, false, not, ◌&&◌, ◌||◌, Option, none,
  some, List, [], ◌∷◌, ◌++◌, Result, ok, err, ◌>>=◌, ◌>>◌, ok_or, ltb, leb, ◌==◌, if◌then◌else◌,
  length, get_or, take, drop, replicate, Bytes, usize_mod, from_ne_bytes, to_ne_bytes,
}

abbrev pub header_len : ℕ
header_len = 8

abbrev pub max_message_len : ℕ
max_message_len = 4096

abbrev pub server_id_base : ℕ
server_id_base = 0xff000000

pub data WireError : Type 0 where
  truncated : WireError
  bad_size : ℕ → WireError
  arg_overrun second_new_id unterminated_string null_string not_utf8 interior_nul : WireError

pub record Header : Type 0 where
  pub object : ℕ
  pub opcode : ℕ
  pub size : ℕ

-- The test of `Header::parse` on a size.
abbrev pub illegal_size : ℕ → Bool
illegal_size size = ltb size header_len || not (size % 4 == 0) || ltb max_message_len size

-- The guard keeps the eight reads in range.
pub parse : Bytes → Result WireError Header
unfolding from_ne_bytes
parse buf =
    if ltb (length buf) header_len
    then err truncated
    else let object =
        from_ne_bytes (get_or buf 0 0) (get_or buf 1 0) (get_or buf 2 0) (get_or buf 3 0) in
      let word1 =
        from_ne_bytes (get_or buf 4 0) (get_or buf 5 0) (get_or buf 6 0) (get_or buf 7 0) in
      let opcode = word1 % 2 ^ 16 in
      let size = word1 / 2 ^ 16 in
      if illegal_size size
      then err (bad_size size)
      else ok (record { object = object; opcode = opcode; size = size })

-- `(size << 16) | opcode`: the opcode has 16 bits, so the or is a sum.
unfoldable pub encode : Header → Bytes
unfolding to_ne_bytes
encode h = to_ne_bytes h.object ++ to_ne_bytes (h.size * 2 ^ 16 + h.opcode)

pub record ArgReader : Type 0 where
  pub body : Bytes
  pub pos : ℕ

abbrev pub new_reader : Bytes → ArgReader
new_reader body = record { body = body; pos = 0 }

abbrev pub remaining : ArgReader → ℕ
remaining r = length r.body - r.pos

abbrev pub is_empty : ArgReader → Bool
is_empty r = remaining r == 0

abbrev pub advance : ℕ → ArgReader → ArgReader
advance n r = record r { pos = r.pos + n }

-- `usize::checked_add`
abbrev pub checked_add : ℕ → ℕ → Option ℕ
checked_add a b = if ltb (a + b) usize_mod then some (a + b) else none

take_to : ArgReader → ℕ → ℕ → Result WireError (Bytes × ArgReader)
take_to r n end =
    if ltb (length r.body) end
    then err arg_overrun
    else ok (take n (drop r.pos r.body), record r { pos = end })

-- `ArgReader::take`
pub take_bytes : ArgReader → ℕ → Result WireError (Bytes × ArgReader)
unfolding take_to
take_bytes r n = do end ← ok_or (checked_add r.pos n) arg_overrun; take_to r n end

pub u32 : ArgReader → Result WireError (ℕ × ArgReader)
unfolding from_ne_bytes
u32 r = do
  (w, r') ← take_bytes r 4
  ok (from_ne_bytes (get_or w 0 0) (get_or w 1 0) (get_or w 2 0) (get_or w 3 0), r')

pub pad4 : ℕ → Option ℕ
pad4 n = if ltb (n + 3) usize_mod then some ((n + 3) / 4 * 4) else none

-- `std::str::from_utf8` as a machine: how many continuation bytes are due, and the range of the
-- next one.
pub record Utf8State : Type 0 where
  pub due : ℕ
  pub lo : ℕ
  pub hi : ℕ

abbrev pub utf8_start : Utf8State
utf8_start = record { due = 0; lo = 0x80; hi = 0xbf }

abbrev within : ℕ → ℕ → ℕ → Bool
within lo hi b = leb lo b && leb b hi

unfoldable pub utf8_lead : ℕ → Option Utf8State
utf8_lead b =
    if ltb b 0x80
    then some utf8_start
    else if within 0xc2 0xdf b
    then some (record { due = 1; lo = 0x80; hi = 0xbf })
    else if b == 0xe0
    then some (record { due = 2; lo = 0xa0; hi = 0xbf })
    else if b == 0xed
    then some (record { due = 2; lo = 0x80; hi = 0x9f })
    else if within 0xe1 0xef b
    then some (record { due = 2; lo = 0x80; hi = 0xbf })
    else if b == 0xf0
    then some (record { due = 3; lo = 0x90; hi = 0xbf })
    else if within 0xf1 0xf3 b
    then some (record { due = 3; lo = 0x80; hi = 0xbf })
    else if b == 0xf4
    then some (record { due = 3; lo = 0x80; hi = 0x8f })
    else none

unfoldable pub utf8_step : Utf8State → ℕ → Option Utf8State
unfolding utf8_lead
utf8_step s b =
    if s.due == 0
    then utf8_lead b
    else if within s.lo s.hi b
    then some (record { due = s.due - 1; lo = 0x80; hi = 0xbf })
    else none

abbrev utf8_then : (Utf8State → Bool) → Option Utf8State → Bool
utf8_then k none = false
utf8_then k (some s) = k s

unfoldable pub utf8_from : Bytes → Utf8State → Bool
unfolding utf8_step
utf8_from [] s = s.due == 0
utf8_from (b ∷ bs) s = utf8_then (utf8_from bs) (utf8_step s b)

unfoldable pub is_utf8 : Bytes → Bool
unfolding utf8_from
is_utf8 bs = utf8_from bs utf8_start

unfoldable pub contains : Bytes → ℕ → Bool
contains [] x = false
contains (b ∷ bs) x = b == x || contains bs x

-- What `string` does with the bytes under the declared length: its text, without the NUL.
text_of : ℕ → Bytes → Result WireError Bytes
unfolding contains is_utf8
text_of declared body =
    let text = take (declared - 1) body in
    if not (get_or body (declared - 1) 1 == 0)
    then err unterminated_string
    else if contains text 0
    then err interior_nul
    else if is_utf8 text
    then ok text
    else err not_utf8

-- `string` behind the length: the declared bytes and their padding.
pub string_body : ℕ → ArgReader → Result WireError (Option Bytes × ArgReader)
string_body declared r = do
  padded ← ok_or (pad4 declared) arg_overrun
  (raw, r') ← take_bytes r padded
  text ← text_of declared (take declared raw)
  ok (some text, r')

-- The declared length counts the NUL; none is the null string.
pub string : ArgReader → Result WireError (Option Bytes × ArgReader)
unfolding string_body
string r = do
  (declared, r') ← u32 r
  if declared == 0 then ok (none, r') else string_body declared r'

pub array : ArgReader → Result WireError (Bytes × ArgReader)
array r = do
  (len, r1) ← u32 r
  padded ← ok_or (pad4 len) arg_overrun
  (raw, r2) ← take_bytes r1 padded
  ok (take len raw, r2)
