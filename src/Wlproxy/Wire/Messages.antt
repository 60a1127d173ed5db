-- ===== src/Wlproxy/Wire/Messages.antt =====
-- What `MessageWriter` writes: whole messages that `parse` and the reader take apart again.
use mathlib.Core.List.{append_assoc}
use kryptik_os.Common.{
  ℕ, ◌+◌, ◌-◌, ◌%◌, ◌^◌, ◌||◌, ◌≤◌, ◌<◌, ◌≡◌, refl, sym, ap, ◌∙◌, Bool, true, false, none, some, [],
  ◌∷◌, ◌++◌, ok, arith, length, drop, ltb, if◌then◌else◌, length-append, Bytes, u16_mod, u32_mod,
  to_ne_bytes, replicate,
}
use kryptik_os.Wlproxy.Wire.{header_len, max_message_len, Header, parse, encode}
use kryptik_os.Wlproxy.Wire.Headers.{IsHeader, parse-encode}
use kryptik_os.Wlproxy.Wire.Texts.{string_wire}
use kryptik_os.Wlproxy.Wire.Writer.{MessageWriter, padding, finish, string}

-- A writer between two arguments: its numbers fit their fields, and its body is padded.
pub record IsWriter (w : MessageWriter) : Type 0 where
  pub object_fits : w.object < u32_mod
  pub opcode_fits : w.opcode < u16_mod
  pub aligned : length w.body % 4 ≡ 0

finish_header : (w : MessageWriter) → Header
finish_header w = record { object = w.object; opcode = w.opcode; size = header_len + length w.body }

if-none-some :
    {A : Type 0} (b : Bool) (a m : A)
    → (if b then none else some a) ≡ some m
    → (b ≡ false) × (a ≡ m)
if-none-some true a m h = cc
if-none-some false a m h = (refl, cc)

size_fits :
    (n : ℕ)
    → (ltb max_message_len (header_len + n) || ltb (2 ^ 16 - 1) (header_len + n)) ≡ false
    → n ≤ 4088
size_fits n h = ground arith

finish_made :
    (w : MessageWriter) (m : Bytes)
    → finish w ≡ some m
    → (length w.body ≤ 4088) × (encode (finish_header w) ++ w.body ≡ m)
unfolding finish finish_header
finish_made w m h =
    let (fits, made) = if-none-some _ (encode (finish_header w) ++ w.body) m h in
    (size_fits (length w.body) fits, made)

-- A finished message fits, its header parses to the writer's object and opcode and to the length
-- of the message, and the writer's body stands behind it.
pub parse-finish :
    (w : MessageWriter) (m : Bytes)
    → IsWriter w
    → finish w ≡ some m
    → (parse m ≡ ok (record { object = w.object; opcode = w.opcode; size = length m }))
      × (length m ≤ max_message_len)
      × (drop header_len m ≡ w.body)
unfolding encode finish_header
parse-finish w m v h =
    let (fits, made) = finish_made w m h in
    let long : length m ≡ 8 + length w.body = ap length (sym made) ∙ omega arith in
    let valid : IsHeader (finish_header w) = ground (arith, v.aligned) in
    (
      rw long (ap parse (sym made) ∙ parse-encode (finish_header w) w.body valid),
      omega (arith, long),
      ap (drop header_len) (sym made),
    )

padding_aligned : (a len : ℕ) → a % 4 ≡ 0 → padding (a + (4 + len)) ≡ padding len
padding_aligned a len h =
    let e : (4 - (a + (4 + len)) % 4) % 4 ≡ (4 - len % 4) % 4 = omega arith in
    ap (λ (n : ℕ). replicate n 0) e

-- A string goes behind the body as its wire form.
pub string-wire :
    (w : MessageWriter) (s : Bytes)
    → length w.body % 4 ≡ 0
    → length s + 1 < u32_mod
    → string w s ≡ record w { body = w.body ++ string_wire s }
unfolding string to_ne_bytes
string-wire w s h lt =
    let bs = s ++ 0 ∷ [] in
    let counted : length bs ≡ length s + 1 = omega (arith, length-append s (0 ∷ [])) in
    let declared : (length s + 1) % u32_mod ≡ length bs = omega (arith, counted) in
    let long : length (w.body ++ (to_ne_bytes (length bs) ++ bs))
        ≡ length w.body + (4 + length bs) =
      omega (arith, length-append w.body (to_ne_bytes (length bs) ++ bs)) in
    rw (declared, long, padding_aligned (length w.body) (length bs) h, append_assoc)
