-- ===== src/Wlproxy/Protocol/Encoding.antt =====
-- Decoding inverts encoding: a body that carries the arguments of a signature is decoded to
-- them, and anything behind the last one is refused.
use mathlib.Core.List.{append_assoc, append-nil}
use kryptik_os.Common.{
  ℕ, ◌+◌, ◌-◌, ◌≤◌, ◌<◌, ◌≡◌, refl, ◌∙◌, true, Option, none, some, List, [], ◌∷◌, ◌++◌, ok, err,
  arith, length, length-append, Bytes, u32_mod, usize_mod, to_ne_bytes,
}
use kryptik_os.Wlproxy.Wire.{arg_overrun, ArgReader, new_reader, advance}
use kryptik_os.Wlproxy.Wire.Reader.{Reads, Reads-advance, Reads-u32, u32-Reads}
use kryptik_os.Wlproxy.Wire.Texts.{
  IsText, array_wire, string_wire, array-array_wire, string-string_wire, string_null,
  Reads-array_wire,
}
use kryptik_os.Wlproxy.Protocol.{
  Arg, int, uint, fixed, str, object, new_id, arr, fd, Message, Decoded, nothing, created,
  note_string, decode_arg, decode_args, decode,
}

-- What a sender passes for an argument.
pub data Value : Type 0 where
  word : ℕ → Value
  text : Option Bytes → Value
  blob : Bytes → Value
  bind : Bytes → ℕ → ℕ → Value
  descriptor : Value

-- A value is one for an argument.
abbrev pub Fits : Arg → Value → Type 0
Fits int (word v) = v < u32_mod
Fits uint (word v) = v < u32_mod
Fits fixed (word v) = v < u32_mod
Fits (object _) (word v) = v < u32_mod
Fits (str nullable) (text none) = nullable ≡ true
Fits (str _) (text (some s)) = IsText s
Fits (new_id (some _)) (word v) = v < u32_mod
Fits (new_id none) (bind name version id) = IsText name × (version < u32_mod) × (id < u32_mod)
Fits arr (blob bs) = length bs < u32_mod
Fits fd descriptor = Unit
Fits _ _ = ⊥

abbrev pub wire : Value → Bytes
wire (word v) = to_ne_bytes v
wire (text none) = to_ne_bytes 0
wire (text (some s)) = string_wire s
wire (blob bs) = array_wire bs
wire (bind name version id) = string_wire name ++ (to_ne_bytes version ++ to_ne_bytes id)
wire descriptor = []

-- What the decoder is to note of an argument that stands at a place.
abbrev pub noted : ℕ → Arg → Value → Decoded → Decoded
noted place (str _) (text (some s)) d = record d { strings = d.strings ++ (place, s) ∷ [] }
noted place (new_id (some name)) (word id) d = record d { new_object = some (id, name) }
noted place (new_id none) (bind name version id) d = record d {
  new_object = some (id, name);
  bind_version = some version;
}
noted place _ _ d = d

abbrev pub creates : Arg → ℕ
creates (new_id _) = 1
creates _ = 0

abbrev pub has_object : Option (ℕ × Bytes) → ℕ
has_object none = 0
has_object (some _) = 1

created-none :
    (d : Decoded) (id : ℕ) (name : Bytes)
    → has_object d.new_object ≡ 0
    → created d id name ≡ ok (record d { new_object = some (id, name) })
unfolding created
created-none d id name h = ground arith

place_lem :
    {r : ArgReader} {left : Bytes} → Reads r left → length r.body - (length r.body - r.pos) ≡ r.pos
place_lem h = omega (arith, h.inside)

advance_bind :
    (r : ArgReader) (name : Bytes) (version id : ℕ)
    → advance 4 (advance 4 (advance (length (string_wire name)) r))
      ≡ advance (length (wire (bind name version id))) r
unfolding to_ne_bytes
advance_bind r name version id =
    let n = length-append (string_wire name) (to_ne_bytes version ++ to_ne_bytes id) in
    ground (arith, n)

decode_bind :
    {r : ArgReader} (name : Bytes) (version id : ℕ) (left : Bytes) (d : Decoded)
    → Fits (new_id none) (bind name version id)
    → has_object d.new_object ≡ 0
    → Reads r (wire (bind name version id) ++ left)
    → decode_arg (new_id none) r d
      ≡ ok (
        advance (length (wire (bind name version id))) r,
        noted r.pos (new_id none) (bind name version id) d,
      )
unfolding decode_arg
decode_bind {r} name version id left d f c h =
    let tail = to_ne_bytes version ++ (to_ne_bytes id ++ left) in
    let split : Reads r (string_wire name ++ tail) =
      rw
        (
          append_assoc (string_wire name) (to_ne_bytes version ++ to_ne_bytes id) left,
          append_assoc (to_ne_bytes version) (to_ne_bytes id) left,
        )
        at h in
    let h1 = Reads-array_wire (name ++ 0 ∷ []) tail split in
    let h2 = Reads-u32 version (to_ne_bytes id ++ left) h1 in
    rw
      (
        string-string_wire name tail f.0 split,
        u32-Reads version (to_ne_bytes id ++ left) f.1 h1,
        u32-Reads id left f.2 h2,
      )
      (rw (
        created-none (record d { bind_version = some version }) id name c,
        advance_bind r name version id,
      ))

-- One argument is read to its end.
pub decode_arg-wire :
    (arg : Arg) (v : Value) {r : ArgReader} (left : Bytes) (d : Decoded)
    → Fits arg v
    → creates arg + has_object d.new_object ≤ 1
    → Reads r (wire v ++ left)
    → decode_arg arg r d ≡ ok (advance (length (wire v)) r, noted r.pos arg v d)
unfolding decode_arg to_ne_bytes
decode_arg-wire int (word v) left d f c h = rw (u32-Reads v left f h)
decode_arg-wire uint (word v) left d f c h = rw (u32-Reads v left f h)
decode_arg-wire fixed (word v) left d f c h = rw (u32-Reads v left f h)
decode_arg-wire (object _) (word v) left d f c h = rw (u32-Reads v left f h)
decode_arg-wire (str nullable) (text none) left d f c h =
    rw (string_null left h) (unfold note_string in ground arith)
decode_arg-wire (str nullable) (text (some s)) left d f c h =
    rw (string-string_wire s left f h, place_lem h) (unfold note_string in refl)
decode_arg-wire arr (blob bs) left d f c h = rw (array-array_wire bs left f h)
decode_arg-wire (new_id (some name)) (word v) left d f c h =
    rw (u32-Reads v left f h, created-none d v name (omega arith))
decode_arg-wire (new_id none) (bind name version id) left d f c h =
    decode_bind name version id left d f (omega arith) h
decode_arg-wire fd descriptor {r} left d f c h = ground arith
decode_arg-wire _ _ left d f c h = absurd f

abbrev pub FitAll : List Arg → List Value → Type 0
FitAll [] [] = Unit
FitAll (arg ∷ args) (v ∷ vs) = Fits arg v × FitAll args vs
FitAll _ _ = ⊥

advance_append :
    (r : ArgReader) (xs ys : Bytes)
    → advance (length ys) (advance (length xs) r) ≡ advance (length (xs ++ ys)) r
advance_append r xs ys = ground (arith, length-append xs ys)

-- The body that carries the values.
abbrev pub wires : List Value → Bytes
wires [] = []
wires (v ∷ vs) = wire v ++ wires vs

abbrev pub noted_all : ℕ → List Arg → List Value → Decoded → Decoded
noted_all place [] vs d = d
noted_all place (arg ∷ args) [] d = d
noted_all place (arg ∷ args) (v ∷ vs) d =
    noted_all (place + length (wire v)) args vs (noted place arg v d)

abbrev pub creates_all : List Arg → ℕ
creates_all [] = 0
creates_all (arg ∷ args) = creates arg + creates_all args

has_object-noted :
    (arg : Arg) (v : Value) (place : ℕ) (d : Decoded)
    → Fits arg v
    → creates arg + has_object d.new_object ≤ 1
    → has_object (noted place arg v d).new_object ≡ creates arg + has_object d.new_object
has_object-noted int (word v) place d f c = omega arith
has_object-noted uint (word v) place d f c = omega arith
has_object-noted fixed (word v) place d f c = omega arith
has_object-noted (object _) (word v) place d f c = omega arith
has_object-noted (str _) (text none) place d f c = omega arith
has_object-noted (str _) (text (some s)) place d f c = omega arith
has_object-noted (new_id (some _)) (word v) place d f c = omega arith
has_object-noted (new_id none) (bind name version id) place d f c = omega arith
has_object-noted arr (blob bs) place d f c = omega arith
has_object-noted fd descriptor place d f c = omega arith
has_object-noted _ _ place d f c = absurd f

pub decode_args-wires :
    (args : List Arg) (vs : List Value) {r : ArgReader} (left : Bytes) (d : Decoded)
    → FitAll args vs
    → creates_all args + has_object d.new_object ≤ 1
    → Reads r (wires vs ++ left)
    → decode_args args r d ≡ ok (advance (length (wires vs)) r, noted_all r.pos args vs d)
unfolding decode_args
decode_args-wires [] [] {r} left d f c h = ground arith
decode_args-wires [] (v ∷ vs) left d f c h = absurd f
decode_args-wires (arg ∷ args) [] left d f c h = absurd f
decode_args-wires (arg ∷ args) (v ∷ vs) {r} left d (f, fs) c h =
    let split = rw (append_assoc (wire v) (wires vs) left) at h in
    let room : creates arg + has_object d.new_object ≤ 1 = omega arith in
    let next = Reads-advance (wire v) (wires vs ++ left) split in
    let more =
      decode_args-wires args vs left (noted r.pos arg v d) fs
        (omega (arith, has_object-noted arg v r.pos d f room)) next in
    rw (decode_arg-wire arg v (wires vs ++ left) d f room split)
      (more ∙ rw (advance_append r (wire v) (wires vs)))

Reads-new : (body : Bytes) → length body < usize_mod → Reads (new_reader body) body
Reads-new body h = record { inside = omega arith; fits = h; unread = refl }

-- A body that carries the arguments of a message, with at most one new object, is decoded to
-- that object, to every string at the place of its length word, and to the version bound.
pub decode-wires :
    (msg : Message) (vs : List Value)
    → FitAll msg.args vs
    → creates_all msg.args ≤ 1
    → length (wires vs) < usize_mod
    → decode msg (wires vs) ≡ ok (noted_all 0 msg.args vs nothing)
unfolding decode
decode-wires msg vs f c fits =
    let at_start : Reads (new_reader (wires vs)) (wires vs ++ []) =
      rw append-nil (Reads-new (wires vs) fits) in
    rw
      (decode_args-wires msg.args vs {r = new_reader (wires vs)} [] nothing f (omega arith)
        at_start)
      (ground arith)

-- Bytes behind the last argument are refused.
pub decode_trailing :
    (msg : Message) (vs : List Value) (x : ℕ) (xs : Bytes)
    → FitAll msg.args vs
    → creates_all msg.args ≤ 1
    → length (wires vs ++ x ∷ xs) < usize_mod
    → decode msg (wires vs ++ x ∷ xs) ≡ err arg_overrun
unfolding decode
decode_trailing msg vs x xs f c fits =
    rw (decode_args-wires msg.args vs (x ∷ xs) nothing f (omega arith) (Reads-new _ fits))
      (ground (arith, length-append (wires vs) (x ∷ xs)))
