-- ===== src/Kryptikd/Broker/Bounds.antt =====
-- Names and numbers of a request that is accepted (compartments/kryptikd/src/broker.rs).
use kryptik_os.Common.{
  ℕ, ◌+◌, ◌*◌, ◌-◌, ◌≤◌, ◌≡◌, refl, arith, Bool, true, false, not, ◌&&◌, ◌||◌, [], ◌∷◌, ◌++◌,
  Option, none, some, Result, ok, err, >>=-eq-ok, ok-eq, ok_or, leb, ltb, ◌==◌, length, Bytes,
  ascii, eq_bytes, has_text, has_char, starts_with, is_blank, is_digit, all_chars, parse_unsigned,
  digits_from, both, inl, inr, Bool-cases,
}
use mathlib.Core.List.{append_assoc, append-nil}
use kryptik_os.Kryptikd.Update.Pointer.{components, is_printable, bad_name}
use kryptik_os.Kryptikd.Update.Listing.{check_transfer_name, u64_max}
use kryptik_os.Kryptikd.Update.Names.{check-ok}
use kryptik_os.Kryptikd.Update.Takes.{stop-ok}
use kryptik_os.Kryptikd.Broker.{
  mime_types, Request, clipboard_set, transfer, update_latest, update_put, Refusal, bad_length,
  bad_zone, is_zone_char, need, check_zone_name, or_refuse, number_of, size_of,
}

-- A name of one component of a path, that is no dotfile, of at most 255 printable characters.
pub record IsFileName (name : Bytes) : Type 0 where
  pub some_name : 1 ≤ length name
  pub short : length name ≤ 255
  pub one_component : components [] name ≡ name ∷ []
  pub visible : starts_with (ascii ".") name ≡ false
  pub printable : all_chars is_printable name ≡ true

pub record IsZoneName (name : Bytes) : Type 0 where
  pub some_name : 1 ≤ length name
  pub short : length name ≤ 12
  pub plain : all_chars is_zone_char name ≡ true

abbrev pub IsWithin : {Claim : Type 0} → Request Claim → Type 0
IsWithin (clipboard_set mime n) = (has_text mime_types mime ≡ true) × (n ≤ 1048576)
IsWithin (transfer dest name) = IsZoneName dest × IsFileName name
IsWithin (update_latest p s) = ((1 ≤ p) × (p ≤ 8192)) × ((1 ≤ s) × (s ≤ 8192))
IsWithin (update_put name at n) =
    IsFileName name × ((at ≤ 0xffffffffffffffff) × ((1 ≤ n) × (n ≤ 1048576)))
IsWithin _ = Unit

pub components-plain :
    (word s : Bytes) → has_char b'/' s ≡ false → components word s ≡ (word ++ s) ∷ []
unfolding components has_char
components-plain word [] h = rw (append-nil word) refl
components-plain word (c ∷ s) h = elim (Bool-cases (c == b'/')) [
  | inl slash ↦ let k = rw slash at h in cc
  | inr other ↦
      let k = rw other at h in
      rw (other, components-plain (word ++ c ∷ []) s k, append_assoc word (c ∷ []) s) refl
]

pub check_transfer_name-IsFileName :
    (name : Bytes) (x : Bool) → check_transfer_name name ≡ ok x → IsFileName name
unfolding check_transfer_name
check_transfer_name-IsFileName [] x h = cc
check_transfer_name-IsFileName (c ∷ name) x h =
    let (sized, h1) = stop-ok (is_blank (c ∷ name) || ltb 255 (length (c ∷ name))) bad_name _ x h in
    let (flat, h2) = stop-ok (has_char b'/' (c ∷ name)) bad_name _ x h1 in
    let (real, h3) =
      stop-ok (eq_bytes (c ∷ name) (ascii ".") || eq_bytes (c ∷ name) (ascii "..")) bad_name _ x
        h2 in
    let (shown, h4) = stop-ok (starts_with (ascii ".") (c ∷ name)) bad_name _ x h3 in
    record {
      some_name = omega arith;
      short = ground (arith, sized);
      one_component = components-plain [] (c ∷ name) flat;
      visible = shown;
      printable = check-ok (all_chars is_printable (c ∷ name)) bad_name h4;
    }

pub or_refuse-ok :
    {E A : Type 0} (e : Refusal) (m : Result E A) (a : A) → or_refuse e m ≡ ok a → m ≡ ok a
or_refuse-ok e (ok x) a h = cc
or_refuse-ok e (err o) a h = cc

pub need-ok : (b : Bool) (e : Refusal) (x : Bool) → need b e ≡ ok x → b ≡ true
need-ok true e x h = refl
need-ok false e x h = cc

pub check_zone_name-IsZoneName :
    (name : Bytes) (x : Bool) → check_zone_name name ≡ ok x → IsZoneName name
unfolding check_zone_name
check_zone_name-IsZoneName [] x h = cc
check_zone_name-IsZoneName (c ∷ name) x h =
    let fine =
      need-ok
        (not (
          is_blank (c ∷ name)
          || (ltb 12 (length (c ∷ name)) || not (all_chars is_zone_char (c ∷ name)))))
        bad_zone x h in
    record { some_name = omega arith; short = ground (arith, fine); plain = ground (arith, fine) }

pub digits_from-le :
    (bound n m : ℕ) (s : Bytes) → n ≤ bound → digits_from bound n s ≡ some m → m ≤ bound
unfolding digits_from
digits_from-le bound n m [] h e = ground (arith, e)
digits_from-le bound n m (c ∷ s) h e =
    elim (Bool-cases (is_digit c && leb (n * 10 + (c - b'0')) bound)) [
      | inr stop ↦ let k = rw stop at e in cc
      | inl digit ↦
          let k = rw digit at e in
          let (shape, fits) = both (is_digit c) (leb (n * 10 + (c - b'0')) bound) digit in
          digits_from-le bound (n * 10 + (c - b'0')) m s (ground (arith, fits)) k
    ]

pub parse_unsigned-le : (bound m : ℕ) (s : Bytes) → parse_unsigned bound s ≡ some m → m ≤ bound
unfolding parse_unsigned
parse_unsigned-le bound m [] h = cc
parse_unsigned-le bound m (c ∷ []) h = digits_from-le bound 0 m (c ∷ []) (omega arith) h
parse_unsigned-le bound m (c ∷ d ∷ s) h = elim (Bool-cases (c == b'+')) [
  | inl plus ↦ let k = rw plus at h in digits_from-le bound 0 m (d ∷ s) (omega arith) k
  | inr other ↦ let k = rw other at h in digits_from-le bound 0 m (c ∷ d ∷ s) (omega arith) k
]

pub ok_or-is_some :
    {A : Type 0} (o : Option A) (e : Refusal) (a : A) → ok_or o e ≡ ok a → o ≡ some a
ok_or-is_some none e a h = cc
ok_or-is_some (some x) e a h = cc

pub number_of-le : (e : Refusal) (w : Bytes) (n : ℕ) → number_of e w ≡ ok n → n ≤ u64_max
number_of-le e w n h =
    parse_unsigned-le u64_max n w (ok_or-is_some (parse_unsigned u64_max w) e n h)

pub size_of_bounds :
    (bound : ℕ) (w : Bytes) (n : ℕ) → size_of bound w ≡ ok n → (1 ≤ n) × (n ≤ bound)
unfolding size_of
size_of_bounds bound w n h =
    let (m, read, h1) = >>=-eq-ok (number_of bad_length w) _ h in
    let (x, fits, h2) = >>=-eq-ok (need (leb 1 m && leb m bound) bad_length) _ h1 in
    let fine = need-ok (leb 1 m && leb m bound) bad_length x fits in
    rw (← ok-eq h2) (ground (arith, fine), ground (arith, fine))
