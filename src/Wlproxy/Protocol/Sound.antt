-- ===== src/Wlproxy/Protocol/Sound.antt =====
-- What `decode` of compositor/wlproxy/src/protocol.rs tells of an accepted body, whoever sent it.
use kryptik_os.Common.{
  ◌∙◌, ℕ, ◌+◌, ◌-◌, ◌≤◌, ◌≡◌, refl, sym, ap, Bool, Option, none, some, List, [], ◌∷◌, ◌++◌, ok,
  >>=-eq-ok, ok-injective, ok_or, arith, length, Bytes,
}
use kryptik_os.Wlproxy.Wire.{ArgReader, new_reader, u32, string, array, null_string, remaining}
use kryptik_os.Wlproxy.Wire.Bounds.{Moves, Moves-trans, Sound, u32-Moves, string-Moves, array-Moves}
use kryptik_os.Wlproxy.Protocol.Encoding.{creates, creates_all, has_object}
use kryptik_os.Wlproxy.Protocol.Named.{IsNamed, decode_args-IsNamed}
use kryptik_os.Wlproxy.Protocol.{
  Arg, int, uint, fixed, str, object, new_id, arr, fd, Message, Decoded, nothing, created,
  note_string, skip_u32, decode_arg, decode_args, decode,
}

-- Every text of the list is UTF-8 with no NUL in it.
abbrev pub SoundTexts : List (ℕ × Bytes) → Type 0
SoundTexts [] = Unit
SoundTexts ((place, s) ∷ ts) = Sound (some s) × SoundTexts ts

SoundTexts-concat :
    (ts : List (ℕ × Bytes)) (place : ℕ) (s : Bytes)
    → SoundTexts ts
    → Sound (some s)
    → SoundTexts (ts ++ (place, s) ∷ [])
SoundTexts-concat [] place s h k = (k, tt)
SoundTexts-concat (t ∷ ts) place s h k = (h.0, SoundTexts-concat ts place s h.1 k)

-- A step of the decoder: the reader went on within the body, the texts stay sound, and the
-- argument's objects were counted.
pub record Steps (n : ℕ) (r : ArgReader) (d : Decoded) (r' : ArgReader) (d' : Decoded)
    : Type 0 where
  pub moves : Moves r r'
  pub texts : SoundTexts d.strings → SoundTexts d'.strings
  pub objects : has_object d'.new_object ≡ n + has_object d.new_object

created-eq-ok :
    (d d' : Decoded) (id : ℕ) (name : Bytes)
    → created d id name ≡ ok d'
    → (d'.strings ≡ d.strings)
      × (has_object d.new_object ≡ 0)
      × (has_object d'.new_object ≡ 1)
      × (d'.bind_version ≡ d.bind_version)
unfolding created
created-eq-ok d d' id name h = (ground arith, ground arith, ground arith, ground arith)

note_string-eq-ok :
    (d d' : Decoded) (place : ℕ) (nullable : Bool) (o : Option Bytes)
    → Sound o
    → note_string d place nullable o ≡ ok d'
    → (SoundTexts d.strings → SoundTexts d'.strings)
      × (has_object d'.new_object ≡ has_object d.new_object)
unfolding note_string
note_string-eq-ok d d' place nullable none k h =
    let same : d ≡ d' = ground arith in
    (λ t. rw (← same) t, ap (λ (x : Decoded). has_object x.new_object) (sym same))
note_string-eq-ok d d' place nullable (some s) k h =
    let strings : d'.strings ≡ d.strings ++ (place, s) ∷ [] = ground arith in
    let objects : d'.new_object ≡ d.new_object = ground arith in
    (λ t. rw strings (SoundTexts-concat d.strings place s t k), ap has_object objects)

Steps-same : {r r' : ArgReader} {d d' : Decoded} → Moves r r' → d ≡ d' → Steps 0 r d r' d'
Steps-same m same = record {
  moves = m;
  texts = λ t. rw (← same) t;
  objects = omega (arith, ap (λ (x : Decoded). has_object x.new_object) same);
}

Steps-created :
    {r r' : ArgReader} {d d' : Decoded} (d0 : Decoded) (id : ℕ) (name : Bytes)
    → Moves r r'
    → d0.strings ≡ d.strings
    → d0.new_object ≡ d.new_object
    → created d0 id name ≡ ok d'
    → Steps 1 r d r' d'
Steps-created {d} {d'} d0 id name m strings objects h =
    let c = created-eq-ok d0 d' id name h in
    record {
      moves = m;
      texts = λ t. rw (c.0, strings) t;
      objects = omega (arith, c, ap has_object objects);
    }

module _ (r : ArgReader) (d : Decoded) (r' : ArgReader) (d' : Decoded) where
  skip_u32-Steps : skip_u32 r d ≡ ok (r', d') → Steps 0 r d r' d'
  unfolding skip_u32
  skip_u32-Steps h =
      let ((v, r1), read, e) = >>=-eq-ok (u32 r) _ h in
      let m = u32-Moves r r1 v read in let moved : r1 ≡ r' = cc in Steps-same (rw (← moved) m.0) cc

  decode_str-Steps :
      (nullable : Bool) → decode_arg (str nullable) r d ≡ ok (r', d') → Steps 0 r d r' d'
  unfolding decode_arg
  decode_str-Steps nullable h =
      let ((s, r1), read, h1) = >>=-eq-ok (string r) _ h in
      let (d1, noted, h2) =
        >>=-eq-ok (note_string d (length r.body - remaining r) nullable s) _ h1 in
      let m = string-Moves r r1 s read in
      let n = note_string-eq-ok d d1 (length r.body - remaining r) nullable s m.1 noted in
      let (moved, same) = ok-injective h2 in
      record {
        moves = rw (← moved) m.0;
        texts = rw (← same) n.0;
        objects = rw (← same) (omega (arith, n.1));
      }

  decode_arr-Steps : decode_arg arr r d ≡ ok (r', d') → Steps 0 r d r' d'
  unfolding decode_arg
  decode_arr-Steps h =
      let ((bs, r1), read, e) = >>=-eq-ok (array r) _ h in
      let m = array-Moves r r1 bs read in let moved : r1 ≡ r' = cc in Steps-same (rw (← moved) m) cc

  decode_new-Steps :
      (name : Bytes) → decode_arg (new_id (some name)) r d ≡ ok (r', d') → Steps 1 r d r' d'
  unfolding decode_arg
  decode_new-Steps name h =
      let ((id, r1), read, h1) = >>=-eq-ok (u32 r) _ h in
      let (d1, made, h2) = >>=-eq-ok (created d id name) _ h1 in
      let m = u32-Moves r r1 id read in
      let (moved, same) = ok-injective h2 in
      Steps-created d id name (rw (← moved) m.0) refl refl (made ∙ ap ok same)

  decode_bind-Steps : decode_arg (new_id none) r d ≡ ok (r', d') → Steps 1 r d r' d'
  unfolding decode_arg
  decode_bind-Steps h =
      let ((o, r1), read1, h1) = >>=-eq-ok (string r) _ h in
      let (name, named, h2) = >>=-eq-ok (ok_or o null_string) _ h1 in
      let ((version, r2), read2, h3) = >>=-eq-ok (u32 r1) _ h2 in
      let ((id, r3), read3, h4) = >>=-eq-ok (u32 r2) _ h3 in
      let (d1, made, h5) =
        >>=-eq-ok (created (record d { bind_version = some version }) id name) _ h4 in
      let m1 = string-Moves r r1 o read1 in
      let m2 = u32-Moves r1 r2 version read2 in
      let m3 = u32-Moves r2 r3 id read3 in
      let (moved, same) = ok-injective h5 in
      Steps-created (record d { bind_version = some version }) id name
        (rw (← moved) (Moves-trans m1.0 (Moves-trans m2.0 m3.0))) refl refl (made ∙ ap ok same)

Moves-refl : {r : ArgReader} → r.pos ≤ length r.body → Moves r r
Moves-refl h = record { body = refl; forward = omega arith; inside = h }

decode_fd-Steps :
    (r : ArgReader) (d : Decoded) (r' : ArgReader) (d' : Decoded)
    → r.pos ≤ length r.body
    → decode_arg fd r d ≡ ok (r', d')
    → Steps 0 r d r' d'
unfolding decode_arg
decode_fd-Steps r d r' d' i h =
    let (moved, same) = ok-injective h in Steps-same (rw (← moved) (Moves-refl i)) same

decode_arg-Steps :
    (arg : Arg) (r : ArgReader) (d : Decoded) (r' : ArgReader) (d' : Decoded)
    → r.pos ≤ length r.body
    → decode_arg arg r d ≡ ok (r', d')
    → Steps (creates arg) r d r' d'
decode_arg-Steps int r d r' d' i h = skip_u32-Steps r d r' d' (unfold decode_arg in h)
decode_arg-Steps uint r d r' d' i h = skip_u32-Steps r d r' d' (unfold decode_arg in h)
decode_arg-Steps fixed r d r' d' i h = skip_u32-Steps r d r' d' (unfold decode_arg in h)
decode_arg-Steps (object n) r d r' d' i h = skip_u32-Steps r d r' d' (unfold decode_arg in h)
decode_arg-Steps (str nullable) r d r' d' i h = decode_str-Steps r d r' d' nullable h
decode_arg-Steps arr r d r' d' i h = decode_arr-Steps r d r' d' h
decode_arg-Steps (new_id (some name)) r d r' d' i h = decode_new-Steps r d r' d' name h
decode_arg-Steps (new_id none) r d r' d' i h = decode_bind-Steps r d r' d' h
decode_arg-Steps fd r d r' d' i h = decode_fd-Steps r d r' d' i h

decode_args-Steps :
    (args : List Arg) (r : ArgReader) (d : Decoded) (r' : ArgReader) (d' : Decoded)
    → r.pos ≤ length r.body
    → decode_args args r d ≡ ok (r', d')
    → Steps (creates_all args) r d r' d'
unfolding decode_args
decode_args-Steps [] r d r' d' i h =
    let (moved, same) = ok-injective h in Steps-same (rw (← moved) (Moves-refl i)) same
decode_args-Steps (arg ∷ args) r d r' d' i h =
    let ((r1, d1), one, more) = >>=-eq-ok (decode_arg arg r d) _ h in
    let a = decode_arg-Steps arg r d r1 d1 i one in
    let b = decode_args-Steps args r1 d1 r' d' a.moves.inside more in
    record {
      moves = Moves-trans a.moves b.moves;
      texts = λ t. b.texts (a.texts t);
      objects = omega (arith, a.objects, b.objects);
    }

-- What an accepted body promises.
pub record IsSound (msg : Message) (d : Decoded) : Type 0 where
  pub texts : SoundTexts d.strings
  pub objects : has_object d.new_object ≡ creates_all msg.args
  pub named : IsNamed msg.args d

-- Of an accepted body, from whatever sender, every string argument that is told is UTF-8 with no
-- NUL inside. There is a new object exactly if the signature has the one argument that creates
-- it. Where the signature names its interface, the object has that name and no version is told;
-- where the body names it, as for wl_registry.bind, the name is UTF-8 with no NUL inside, and a
-- version is told.
pub decode-IsSound :
    (msg : Message) (body : Bytes) (d : Decoded) → decode msg body ≡ ok d → IsSound msg d
unfolding decode
decode-IsSound msg body d h =
    let ((r, d1), read, e) = >>=-eq-ok (decode_args msg.args (new_reader body) nothing) _ h in
    let s = decode_args-Steps msg.args (new_reader body) nothing r d1 (omega arith) read in
    let same : d1 ≡ d = ground arith in
    record {
      texts = rw (← same) (s.texts tt);
      objects = rw (← same) (omega (arith, s.objects));
      named =
          rw (← same) (decode_args-IsNamed msg.args (new_reader body) nothing r d1 refl refl read);
    }
