-- ===== src/Wlproxy/Wire/Texts.antt =====
-- Strings and arrays on the wire: `string` and `array` read back what a writer puts there.
use kryptik_os.Common.{
  ℕ, suc, ◌+◌, ◌-◌, ◌%◌, ◌<◌, ◌≡◌, refl, ◌∙◌, true, false, none, some, [], ◌∷◌, ◌++◌, ok, arith,
  length, ◌==◌, get_or, length-append, length-replicate, take-append, Bytes, u32_mod, to_ne_bytes,
}
use mathlib.Core.List.{append_assoc}
use kryptik_os.Wlproxy.Wire.{
  ArgReader, advance, take_bytes, u32, pad4, string, array, text_of, is_utf8, contains,
}
use kryptik_os.Wlproxy.Wire.Reader.{Reads, Reads-advance, Reads-u32, u32-Reads, take_bytes-Reads}
use kryptik_os.Wlproxy.Wire.Writer.{padding}

-- A text that Wayland carries: UTF-8 with no NUL, its length in 32 bits with the NUL.
pub record IsText (s : Bytes) : Type 0 where
  pub utf8 : is_utf8 s ≡ true
  pub no_nul : contains s 0 ≡ false
  pub short : length s + 1 < u32_mod

-- Bytes behind their length and before their padding.
abbrev pub array_wire : Bytes → Bytes
array_wire bs = to_ne_bytes (length bs) ++ (bs ++ padding (length bs))

abbrev pub string_wire : Bytes → Bytes
string_wire s = array_wire (s ++ 0 ∷ [])

length-padding : (n : ℕ) → length (padding n) ≡ (4 - n % 4) % 4
length-padding n = length-replicate ((4 - n % 4) % 4) 0

pad4-padding :
    (bs : Bytes)
    → length bs < u32_mod
    → pad4 (length bs) ≡ some (length (bs ++ padding (length bs)))
unfolding pad4
pad4-padding bs h =
    ground (arith, length-append bs (padding (length bs)), length-padding (length bs))

pub length-array_wire :
    (bs : Bytes) → length (array_wire bs) ≡ 4 + length (bs ++ padding (length bs))
unfolding to_ne_bytes
length-array_wire bs = omega arith

-- What both readers do up to their result.
module _ {r : ArgReader} (bs left : Bytes) (short : length bs < u32_mod)
    (h : Reads r (array_wire bs ++ left)) where
  padded : Bytes
  padded = bs ++ padding (length bs)

  Reads-split : Reads r (to_ne_bytes (length bs) ++ (padded ++ left))
  unfolding padded
  Reads-split = rw (← append_assoc) h

  pub u32-array_wire : u32 r ≡ ok (length bs, advance 4 r)
  u32-array_wire = u32-Reads (length bs) (padded ++ left) short Reads-split

  Reads-padded : Reads (advance 4 r) (padded ++ left)
  Reads-padded = Reads-u32 (length bs) (padded ++ left) Reads-split

  advance_all : advance (length padded) (advance 4 r) ≡ advance (length (array_wire bs)) r
  unfolding padded
  advance_all = ground (arith, length-array_wire bs)

  pub take_bytes-array_wire :
      take_bytes (advance 4 r) (length (bs ++ padding (length bs)))
      ≡ ok (bs ++ padding (length bs), advance (length (array_wire bs)) r)
  unfolding padded
  take_bytes-array_wire = take_bytes-Reads padded left Reads-padded ∙ rw advance_all

  -- An array is read back, and the reader stands behind its padding.
  pub array-array_wire : array r ≡ ok (bs, advance (length (array_wire bs)) r)
  unfolding array
  array-array_wire = rw (
    u32-array_wire,
    pad4-padding bs short,
    take_bytes-array_wire,
    take-append bs (padding (length bs)),
  )

pub Reads-array_wire :
    {r : ArgReader} (bs left : Bytes)
    → Reads r (array_wire bs ++ left)
    → Reads (advance (length (array_wire bs)) r) left
Reads-array_wire bs left h = Reads-advance (array_wire bs) left h

get_or-concat : (s : Bytes) (x d : ℕ) → get_or (s ++ x ∷ []) (length s) d ≡ x
get_or-concat [] x d = refl
get_or-concat (c ∷ s) x d = get_or-concat s x d

length-concat : (s : Bytes) (x : ℕ) → length (s ++ x ∷ []) ≡ suc (length s)
length-concat s x = omega (arith, length-append s (x ∷ []))

text_of-concat : (s : Bytes) → IsText s → text_of (length (s ++ 0 ∷ [])) (s ++ 0 ∷ []) ≡ ok s
unfolding text_of
text_of-concat s t =
    let n : length (s ++ 0 ∷ []) - 1 ≡ length s = omega (arith, length-append s (0 ∷ [])) in
    rw (n, get_or-concat s 0 1, take-append s (0 ∷ []), t.no_nul, t.utf8)

-- A text is read back, and the reader stands behind its padding.
pub string-string_wire :
    {r : ArgReader} (s left : Bytes)
    → IsText s
    → Reads r (string_wire s ++ left)
    → string r ≡ ok (some s, advance (length (string_wire s)) r)
unfolding string
string-string_wire {r} s left t h =
    let bs = s ++ 0 ∷ [] in
    let short : length bs < u32_mod = omega (arith, length-concat s 0, t.short) in
    let counted : (length bs == 0) ≡ false = ground (arith, length-concat s 0) in
    rw (
      u32-array_wire bs left short h,
      counted,
      pad4-padding bs short,
      take_bytes-array_wire bs left short h,
      take-append bs (padding (length bs)),
      text_of-concat s t,
    )

-- Length 0 is the null string.
pub string_null :
    {r : ArgReader} (left : Bytes)
    → Reads r (to_ne_bytes 0 ++ left)
    → string r ≡ ok (none, advance 4 r)
unfolding string
string_null left h = rw (u32-Reads 0 left (omega arith) h)
