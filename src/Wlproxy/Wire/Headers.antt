-- ===== src/Wlproxy/Wire/Headers.antt =====
-- Headers: what `parse` accepts, and that it inverts `encode`.
use kryptik_os.Common.{
  ℕ, ◌+◌, ◌*◌, ◌/◌, ◌%◌, ◌^◌, ◌≤◌, ◌<◌, ◌≡◌, false, [], ◌∷◌, ◌++◌, ok, arith, take, Bytes, IsBytes,
  u16_mod, u32_mod, from_ne_bytes, to_ne_bytes, from-to_ne_bytes, byte_of-from_ne_bytes,
  from_ne_bytes-lt,
}
use kryptik_os.Wlproxy.Wire.{header_len, max_message_len, Header, illegal_size, parse, encode}

-- A header that a message of the proxy or of libwayland can have.
pub record IsHeader (h : Header) : Type 0 where
  pub object_fits : h.object < u32_mod
  pub opcode_fits : h.opcode < u16_mod
  pub holds_header : header_len ≤ h.size
  pub aligned : h.size % 4 ≡ 0
  pub bounded : h.size ≤ max_message_len

word1_fields :
    (size opcode : ℕ)
    → opcode < u16_mod
    → ((size * 2 ^ 16 + opcode) % 2 ^ 16 ≡ opcode) × ((size * 2 ^ 16 + opcode) / 2 ^ 16 ≡ size)
word1_fields size opcode h = omega arith

-- Parsing an encoded header gives it back, whatever follows.
pub parse-encode : (h : Header) (rest : Bytes) → IsHeader h → parse (encode h ++ rest) ≡ ok h
unfolding parse encode to_ne_bytes
parse-encode h rest v = ground (
  arith,
  from-to_ne_bytes h.object,
  from-to_ne_bytes (h.size * 2 ^ 16 + h.opcode),
  word1_fields h.size h.opcode,
)

size_checked : (size : ℕ) → illegal_size size ≡ false → (8 ≤ size) × (size % 4 ≡ 0) × (size ≤ 4096)
size_checked size h = (ground arith, ground arith, ground arith)

word1_split : (w : ℕ) → w / 2 ^ 16 * 2 ^ 16 + w % 2 ^ 16 ≡ w
word1_split w = omega arith

-- A header that `parse` accepts is one that a message can have, and it is the header of exactly
-- the first eight bytes.
pub parse-IsHeader :
    (buf : Bytes) (h : Header)
    → IsBytes buf
    → parse buf ≡ ok h
    → IsHeader h × (encode h ≡ take header_len buf)
unfolding parse encode to_ne_bytes
parse-IsHeader (b0 ∷ b1 ∷ b2 ∷ b3 ∷ b4 ∷ b5 ∷ b6 ∷ b7 ∷ rest) h v e =
    let w = from_ne_bytes b4 b5 b6 b7 in
    let o = byte_of-from_ne_bytes b0 b1 b2 b3 v.0 v.1.0 v.1.1.0 v.1.1.1.0 in
    let tail = v.1.1.1.1 in
    let q = byte_of-from_ne_bytes b4 b5 b6 b7 tail.0 tail.1.0 tail.1.1.0 tail.1.1.1.0 in
    (
      ground (arith, size_checked h.size, word1_split w, from_ne_bytes-lt b0 b1 b2 b3),
      ground (arith, o, q, word1_split w),
    )
parse-IsHeader [] h v e = cc
parse-IsHeader _ h v e = cc
