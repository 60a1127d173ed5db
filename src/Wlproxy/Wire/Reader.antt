-- ===== src/Wlproxy/Wire/Reader.antt =====
-- The reader against the bytes that it still has to read.
use kryptik_os.Common.{
  ℕ, ◌+◌, ◌≤◌, ◌<◌, ◌≡◌, sym, ap, ◌∙◌, ◌++◌, ok, err, arith, length, drop, take, length-append,
  length-drop, drop-drop, take-append, drop-append, Bytes, usize_mod, u32_mod, to_ne_bytes,
  from-to_ne_bytes,
}
use kryptik_os.Wlproxy.Wire.{arg_overrun, ArgReader, advance, take_bytes, u32}

-- The reader stands inside its body with `left` still to read; a body is a slice of memory.
pub record Reads (r : ArgReader) (left : Bytes) : Type 0 where
  pub inside : r.pos ≤ length r.body
  pub fits : length r.body < usize_mod
  pub unread : drop r.pos r.body ≡ left

Reads-length : {r : ArgReader} {left : Bytes} → Reads r left → r.pos + length left ≡ length r.body
Reads-length {r} {left} h = omega (arith, length-drop r.pos r.body, ap length h.unread, h.inside)

pub Reads-advance :
    {r : ArgReader} (xs left : Bytes) → Reads r (xs ++ left) → Reads (advance (length xs) r) left
Reads-advance {r} xs left h = record {
  inside = omega (arith, Reads-length h, length-append xs left);
  fits = h.fits;
  unread =
      sym (drop-drop r.pos (length xs) r.body)
      ∙ ap (drop (length xs)) h.unread
      ∙ drop-append xs left;
}

-- What is there is taken, and no more.
pub take_bytes-Reads :
    {r : ArgReader} (xs left : Bytes)
    → Reads r (xs ++ left)
    → take_bytes r (length xs) ≡ ok (xs, advance (length xs) r)
unfolding take_bytes
take_bytes-Reads {r} xs left h =
    let room : r.pos + length xs ≤ length r.body =
      omega (arith, Reads-length h, length-append xs left) in
    let taken : take (length xs) (drop r.pos r.body) ≡ xs =
      ap (take (length xs)) h.unread ∙ take-append xs left in
    ground (arith, room, taken, h.fits)

-- A request for more than is left is refused, however large.
pub take_bytes_overrun :
    {r : ArgReader} {left : Bytes} (n : ℕ)
    → Reads r left
    → length left < n
    → take_bytes r n ≡ err arg_overrun
unfolding take_bytes
take_bytes_overrun {r} n h m = ground (arith, Reads-length h)

pub u32-Reads :
    {r : ArgReader} (v : ℕ) (left : Bytes)
    → v < u32_mod
    → Reads r (to_ne_bytes v ++ left)
    → u32 r ≡ ok (v, advance 4 r)
unfolding u32 to_ne_bytes
u32-Reads {r} v left lt h =
    rw (take_bytes-Reads (to_ne_bytes v) left h) (rw (from-to_ne_bytes v lt))

pub Reads-u32 :
    {r : ArgReader} (v : ℕ) (left : Bytes)
    → Reads r (to_ne_bytes v ++ left)
    → Reads (advance 4 r) left
unfolding to_ne_bytes
Reads-u32 v left h = Reads-advance (to_ne_bytes v) left h
