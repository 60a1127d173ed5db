-- ===== src/Wlproxy/Wire/Bounds.antt =====
-- No input makes the reader pass the end of its body.
use kryptik_os.Common.{
  ℕ, ◌+◌, ◌≤◌, ◌≡◌, ◌∙◌, true, false, Option, none, some, ok, >>=-eq-ok, ok_or, arith, length, drop,
  take, ◌==◌, if◌then◌else◌, length-take, length-drop, Bytes,
}
use kryptik_os.Wlproxy.Wire.{
  arg_overrun, ArgReader, take_bytes, u32, pad4, string, array, string_body, text_of, is_utf8,
  contains,
}

-- A step of the reader: the same body, and a place no earlier and not past its end.
pub record Moves (r r' : ArgReader) : Type 0 where
  pub body : r'.body ≡ r.body
  pub forward : r.pos ≤ r'.pos
  pub inside : r'.pos ≤ length r'.body

pub Moves-trans : {r s t : ArgReader} → Moves r s → Moves s t → Moves r t
Moves-trans h k = record {
  body = k.body ∙ h.body;
  forward = omega (arith, h.forward, k.forward);
  inside = k.inside;
}

-- Exactly `n` bytes are taken, from where the reader stands.
pub take_bytes-Moves :
    (r r' : ArgReader) (n : ℕ) (bs : Bytes)
    → take_bytes r n ≡ ok (bs, r')
    → Moves r r' × (bs ≡ take n (drop r.pos r.body)) × (length bs ≡ n) × (r'.pos ≡ r.pos + n)
unfolding take_bytes
take_bytes-Moves r r' n bs h =
    let cut = length-take n (drop r.pos r.body) in
    (ground arith, ground arith, ground (arith, cut, length-drop r.pos r.body), ground arith)

pub u32-Moves : (r r' : ArgReader) (v : ℕ) → u32 r ≡ ok (v, r') → Moves r r' × (r'.pos ≡ r.pos + 4)
unfolding u32
u32-Moves r r' v h =
    let ((w, r1), taken, e) = >>=-eq-ok (take_bytes r 4) _ h in
    let m = take_bytes-Moves r r1 4 w taken in ground (arith, m)

text_of_sound :
    (declared : ℕ) (body s : Bytes)
    → text_of declared body ≡ ok s
    → (is_utf8 s ≡ true) × (contains s 0 ≡ false)
unfolding text_of
text_of_sound declared body s h = ground arith

-- What `string` has to say of its result: `none` only of length 0, and a text that C reads whole.
abbrev pub Sound : Option Bytes → Type 0
Sound none = Unit
Sound (some s) = (is_utf8 s ≡ true) × (contains s 0 ≡ false)

string_body-Moves :
    (declared : ℕ) (r r' : ArgReader) (o : Option Bytes)
    → string_body declared r ≡ ok (o, r')
    → Moves r r' × Sound o
unfolding string_body
string_body-Moves declared r r' o h =
    let (padded, p, h1) = >>=-eq-ok (ok_or (pad4 declared) arg_overrun) _ h in
    let ((raw, r2), taken, h2) = >>=-eq-ok (take_bytes r padded) _ h1 in
    let (text, t, h3) = >>=-eq-ok (text_of declared (take declared raw)) _ h2 in
    let m = take_bytes-Moves r r2 padded raw taken in
    let sound = text_of_sound declared (take declared raw) text t in ground (arith, m, sound)

if_string :
    (declared : ℕ) (r r' : ArgReader) (o : Option Bytes)
    → r.pos ≤ length r.body
    → (if declared == 0 then ok (none, r) else string_body declared r) ≡ ok (o, r')
    → Moves r r' × Sound o
if_string declared r r' o inside h = ground (arith, string_body-Moves declared r r' o)

-- A string is read within the body, and it is UTF-8 with no NUL in it.
pub string-Moves :
    (r r' : ArgReader) (o : Option Bytes) → string r ≡ ok (o, r') → Moves r r' × Sound o
unfolding string
string-Moves r r' o h =
    let ((declared, r1), d, h1) = >>=-eq-ok (u32 r) _ h in
    let m = u32-Moves r r1 declared d in
    let m' = if_string declared r1 r' o m.0.inside h1 in (Moves-trans m.0 m'.0, m'.1)

pub array-Moves : (r r' : ArgReader) (bs : Bytes) → array r ≡ ok (bs, r') → Moves r r'
unfolding array
array-Moves r r' bs h =
    let ((len, r1), d, h1) = >>=-eq-ok (u32 r) _ h in
    let (padded, p, h2) = >>=-eq-ok (ok_or (pad4 len) arg_overrun) _ h1 in
    let ((raw, r2), taken, h3) = >>=-eq-ok (take_bytes r1 padded) _ h2 in
    let m = u32-Moves r r1 len d in
    let m' = take_bytes-Moves r1 r2 padded raw taken in Moves-trans m.0 (ground (arith, m'.0))
