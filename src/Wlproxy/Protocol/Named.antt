-- ===== src/Wlproxy/Protocol/Named.antt =====
-- What `decode` of compositor/wlproxy/src/protocol.rs tells of the object that a message creates.
use mathlib.Core.Path.{subst}
use kryptik_os.Common.{
  ℕ, ◌-◌, ◌≡◌, ◌∙◌, sym, ap, Bool, Option, none, some, List, [], ◌∷◌, ok, >>=-eq-ok, ok-injective,
  ok_or, arith, length, Bytes,
}
use kryptik_os.Wlproxy.Wire.{ArgReader, u32, string, array, null_string, remaining}
use kryptik_os.Wlproxy.Wire.Bounds.{Sound, string-Moves}
use kryptik_os.Wlproxy.Protocol.{
  Arg, int, uint, fixed, str, object, new_id, arr, fd, Decoded, created, note_string, skip_u32,
  decode_arg, decode_args,
}

abbrev IsKept : Decoded → Decoded → Type 0
IsKept d d' = (d'.new_object ≡ d.new_object) × (d'.bind_version ≡ d.bind_version)

-- A new object of an interface that the signature names.
abbrev pub IsOf : Bytes → Decoded → Type 0
IsOf name d = (id : ℕ) × (d.new_object ≡ some (id, name)) × (d.bind_version ≡ none)

-- A bound object: its interface is a text, and its version is told.
abbrev pub IsBound : Decoded → Type 0
IsBound d =
    (id : ℕ) × (name : Bytes) × (version : ℕ) × (d.new_object ≡ some (id, name))
    × (d.bind_version ≡ some version)
    × Sound (some name)

-- The object by the first argument that creates one.
abbrev pub IsNamed : List Arg → Decoded → Type 0
IsNamed [] d = (d.new_object ≡ none) × (d.bind_version ≡ none)
IsNamed (new_id (some name) ∷ args) d = IsOf name d
IsNamed (new_id none ∷ args) d = IsBound d
IsNamed (_ ∷ args) d = IsNamed args d

created-eq-ok :
    (d d' : Decoded) (id : ℕ) (name : Bytes)
    → created d id name ≡ ok d'
    → (d.new_object ≡ none) × (d'.new_object ≡ some (id, name)) × (d'.bind_version ≡ d.bind_version)
unfolding created
created-eq-ok d d' id name h = (ground arith, ground arith, ground arith)

note_string-IsKept :
    (d d' : Decoded) (place : ℕ) (nullable : Bool) (o : Option Bytes)
    → note_string d place nullable o ≡ ok d'
    → IsKept d d'
unfolding note_string
note_string-IsKept d d' place nullable none h = (ground arith, ground arith)
note_string-IsKept d d' place nullable (some s) h = (ground arith, ground arith)

same-IsKept : {d d' : Decoded} → d ≡ d' → IsKept d d'
same-IsKept e = (cc, cc)

Sound-some : (o : Option Bytes) (name : Bytes) → o ≡ some name → Sound o → Sound (some name)
Sound-some o name e h = subst Sound e h

module _ (r : ArgReader) (d : Decoded) (r' : ArgReader) (d' : Decoded) where
  skip_u32-IsKept : skip_u32 r d ≡ ok (r', d') → IsKept d d'
  unfolding skip_u32
  skip_u32-IsKept h = let (v, read, e) = >>=-eq-ok (u32 r) _ h in same-IsKept (ok-injective e).1

  decode_str-IsKept : (nullable : Bool) → decode_arg (str nullable) r d ≡ ok (r', d') → IsKept d d'
  unfolding decode_arg
  decode_str-IsKept nullable h =
      let ((s, r1), read, h1) = >>=-eq-ok (string r) _ h in
      let (d1, noted, h2) =
        >>=-eq-ok (note_string d (length r.body - remaining r) nullable s) _ h1 in
      rw (← (ok-injective h2).1)
        (note_string-IsKept d d1 (length r.body - remaining r) nullable s noted)

  decode_arr-IsKept : decode_arg arr r d ≡ ok (r', d') → IsKept d d'
  unfolding decode_arg
  decode_arr-IsKept h = let (v, read, e) = >>=-eq-ok (array r) _ h in same-IsKept (ok-injective e).1

  decode_fd-IsKept : decode_arg fd r d ≡ ok (r', d') → IsKept d d'
  unfolding decode_arg
  decode_fd-IsKept h = same-IsKept (ok-injective h).1

  -- The interface that the signature names.
  decode_new-some :
      (name : Bytes)
      → decode_arg (new_id (some name)) r d ≡ ok (r', d')
      → (d.new_object ≡ none)
        × ((id : ℕ) × (d'.new_object ≡ some (id, name)) × (d'.bind_version ≡ d.bind_version))
  unfolding decode_arg
  decode_new-some name h =
      let ((id, r1), read, h1) = >>=-eq-ok (u32 r) _ h in
      let (d1, made, h2) = >>=-eq-ok (created d id name) _ h1 in
      let (none_yet, one, kept) = created-eq-ok d d' id name (made ∙ ap ok (ok-injective h2).1) in
      (none_yet, (id, one, kept))

  -- The interface that the body names.
  decode_new-none : decode_arg (new_id none) r d ≡ ok (r', d') → (d.new_object ≡ none) × IsBound d'
  unfolding decode_arg
  decode_new-none h =
      let ((o, r1), read1, h1) = >>=-eq-ok (string r) _ h in
      let (name, named, h2) = >>=-eq-ok (ok_or o null_string) _ h1 in
      let ((version, r2), read2, h3) = >>=-eq-ok (u32 r1) _ h2 in
      let ((id, r3), read3, h4) = >>=-eq-ok (u32 r2) _ h3 in
      let (d1, made, h5) =
        >>=-eq-ok (created (record d { bind_version = some version }) id name) _ h4 in
      let c =
        created-eq-ok (record d { bind_version = some version }) d' id name
          (made ∙ ap ok (ok-injective h5).1) in
      let texts = Sound-some o name (ground (arith, named)) (string-Moves r r1 o read1).1 in
      (c.0, (id, name, version, c.1, c.2, texts))

some-none : {o : ℕ × Bytes} → some o ≡ none → ⊥
some-none e = cc

-- No argument creates a second object.
decode_arg-IsKept :
    (arg : Arg) (r : ArgReader) (d : Decoded) (r' : ArgReader) (d' : Decoded) (o : ℕ × Bytes)
    → d.new_object ≡ some o
    → decode_arg arg r d ≡ ok (r', d')
    → IsKept d d'
decode_arg-IsKept int r d r' d' o told h = skip_u32-IsKept r d r' d' (unfold decode_arg in h)
decode_arg-IsKept uint r d r' d' o told h = skip_u32-IsKept r d r' d' (unfold decode_arg in h)
decode_arg-IsKept fixed r d r' d' o told h = skip_u32-IsKept r d r' d' (unfold decode_arg in h)
decode_arg-IsKept (object n) r d r' d' o told h = skip_u32-IsKept r d r' d' (unfold decode_arg in h)
decode_arg-IsKept (str nullable) r d r' d' o told h = decode_str-IsKept r d r' d' nullable h
decode_arg-IsKept arr r d r' d' o told h = decode_arr-IsKept r d r' d' h
decode_arg-IsKept fd r d r' d' o told h = decode_fd-IsKept r d r' d' h
decode_arg-IsKept (new_id (some name)) r d r' d' o told h =
    absurd (some-none (sym told ∙ (decode_new-some r d r' d' name h).0))
decode_arg-IsKept (new_id none) r d r' d' o told h =
    absurd (some-none (sym told ∙ (decode_new-none r d r' d' h).0))

-- Once an object is told, the rest of the arguments keeps it.
decode_args-IsKept :
    (args : List Arg) (r : ArgReader) (d : Decoded) (r' : ArgReader) (d' : Decoded) (o : ℕ × Bytes)
    → d.new_object ≡ some o
    → decode_args args r d ≡ ok (r', d')
    → IsKept d d'
unfolding decode_args
decode_args-IsKept [] r d r' d' o told h = same-IsKept (ok-injective h).1
decode_args-IsKept (arg ∷ args) r d r' d' o told h =
    let ((r1, d1), one, more) = >>=-eq-ok (decode_arg arg r d) _ h in
    let a = decode_arg-IsKept arg r d r1 d1 o told one in
    let b = decode_args-IsKept args r1 d1 r' d' o (a.0 ∙ told) more in (b.0 ∙ a.0, b.1 ∙ a.1)

-- One argument, and what is told of the object behind it.
decode_args-IsNamed_step :
    (arg : Arg) (args : List Arg) (r : ArgReader) (d : Decoded) (r1 : ArgReader) (d1 : Decoded)
    (r' : ArgReader) (d' : Decoded)
    → d.new_object ≡ none
    → d.bind_version ≡ none
    → decode_arg arg r d ≡ ok (r1, d1)
    → decode_args args r1 d1 ≡ ok (r', d')
    → (d1.new_object ≡ none → d1.bind_version ≡ none → IsNamed args d')
    → IsNamed (arg ∷ args) d'
decode_args-IsNamed_step int args r d r1 d1 r' d' fresh unbound one more rest =
    let k = skip_u32-IsKept r d r1 d1 (unfold decode_arg in one) in
    rest (k.0 ∙ fresh) (k.1 ∙ unbound)
decode_args-IsNamed_step uint args r d r1 d1 r' d' fresh unbound one more rest =
    let k = skip_u32-IsKept r d r1 d1 (unfold decode_arg in one) in
    rest (k.0 ∙ fresh) (k.1 ∙ unbound)
decode_args-IsNamed_step fixed args r d r1 d1 r' d' fresh unbound one more rest =
    let k = skip_u32-IsKept r d r1 d1 (unfold decode_arg in one) in
    rest (k.0 ∙ fresh) (k.1 ∙ unbound)
decode_args-IsNamed_step (object n) args r d r1 d1 r' d' fresh unbound one more rest =
    let k = skip_u32-IsKept r d r1 d1 (unfold decode_arg in one) in
    rest (k.0 ∙ fresh) (k.1 ∙ unbound)
decode_args-IsNamed_step (str nullable) args r d r1 d1 r' d' fresh unbound one more rest =
    let k = decode_str-IsKept r d r1 d1 nullable one in rest (k.0 ∙ fresh) (k.1 ∙ unbound)
decode_args-IsNamed_step arr args r d r1 d1 r' d' fresh unbound one more rest =
    let k = decode_arr-IsKept r d r1 d1 one in rest (k.0 ∙ fresh) (k.1 ∙ unbound)
decode_args-IsNamed_step fd args r d r1 d1 r' d' fresh unbound one more rest =
    let k = decode_fd-IsKept r d r1 d1 one in rest (k.0 ∙ fresh) (k.1 ∙ unbound)
decode_args-IsNamed_step (new_id (some name)) args r d r1 d1 r' d' fresh unbound one more rest =
    let (none_yet, (id, told, kept)) = decode_new-some r d r1 d1 name one in
    let k = decode_args-IsKept args r1 d1 r' d' (id, name) told more in
    (id, k.0 ∙ told, k.1 ∙ (kept ∙ unbound))
decode_args-IsNamed_step (new_id none) args r d r1 d1 r' d' fresh unbound one more rest =
    let (none_yet, (id, name, version, told, bound, texts)) = decode_new-none r d r1 d1 one in
    let k = decode_args-IsKept args r1 d1 r' d' (id, name) told more in
    (id, name, version, k.0 ∙ told, k.1 ∙ bound, texts)

-- What is told of the object is what the first argument that creates one says.
pub decode_args-IsNamed :
    (args : List Arg) (r : ArgReader) (d : Decoded) (r' : ArgReader) (d' : Decoded)
    → d.new_object ≡ none
    → d.bind_version ≡ none
    → decode_args args r d ≡ ok (r', d')
    → IsNamed args d'
unfolding decode_args
decode_args-IsNamed [] r d r' d' fresh unbound h =
    let same = (ok-injective h).1 in rw (← same) (fresh, unbound)
decode_args-IsNamed (arg ∷ args) r d r' d' fresh unbound h =
    let ((r1, d1), one, more) = >>=-eq-ok (decode_arg arg r d) _ h in
    decode_args-IsNamed_step arg args r d r1 d1 r' d' fresh unbound one more
      (λ f u. decode_args-IsNamed args r1 d1 r' d' f u more)
