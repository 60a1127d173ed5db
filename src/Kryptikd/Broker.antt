-- ===== src/Kryptikd/Broker.antt =====
-- compartments/kryptikd/src/broker.rs: the requests of a zone to its broker, and the update verbs
-- it hands on. The claim of a clock's offset is floating point: its parser is an argument.
pub mod Requests
pub mod Bounds
mod Tests
use kryptik_os.Common.{
  ℕ, Bool, true, false, not, ◌&&◌, ◌||◌, List, [], ◌∷◌, ◌++◌, Option, none, some, Result, ok, err,
  ◌>>=◌, ok_or, leb, ltb, ◌==◌, if◌then◌else◌, length, Bytes, ascii, eq_bytes, has_text, is_blank,
  is_digit, all_chars, split_whitespace, parse_unsigned, usize_mod,
}
use kryptik_os.Kryptikd.Update.Listing.{check_transfer_name, u64_max}

abbrev pub clipboard_max : ℕ
clipboard_max = 1048576

-- `POINTER_MAX` and `PUT_MAX`
abbrev pub pointer_max : ℕ
pointer_max = 8192

abbrev pub put_max : ℕ
put_max = 1048576

abbrev pub mime_types : List Bytes
mime_types =
    ascii "text/plain"
    ∷ ascii "text/plain;charset=utf-8"
    ∷ ascii "text/html"
    ∷ ascii "text/uri-list"
    ∷ ascii "image/png"
    ∷ ascii "image/jpeg"
    ∷ ascii "application/octet-stream"
    ∷ []

-- `Request`, by the type of a claim.
pub data Request (Claim : Type 0) : Type 0 where
  version clipboard_get update_poll stick : Request Claim
  clipboard_set : Bytes → ℕ → Request Claim
  not_a_zone_verb unknown : Bytes → Request Claim
  transfer : Bytes → Bytes → Request Claim
  time_offset : Claim → Request Claim
  update_latest : ℕ → ℕ → Request Claim
  update_put : Bytes → ℕ → ℕ → Request Claim

pub data Refusal : Type 0 where
  bad_mime bad_length too_long bad_zone bad_file bad_claim bad_offset usage empty_request : Refusal

abbrev pub is_zone_char : ℕ → Bool
is_zone_char c = leb b'a' c && leb c b'z' || (is_digit c || c == b'-')

abbrev pub need : Bool → Refusal → Result Refusal Bool
need true e = ok true
need false e = err e

unfoldable pub check_zone_name : Bytes → Result Refusal Bool
check_zone_name s =
    need (not (is_blank s || (ltb 12 (length s) || not (all_chars is_zone_char s)))) bad_zone

-- `?` on an error of `check_transfer_name`.
abbrev pub or_refuse : {E A : Type 0} → Refusal → Result E A → Result Refusal A
or_refuse e (ok a) = ok a
or_refuse e (err other) = err e

-- A number of 64 bits, and one between 1 and a bound.
abbrev pub number_of : Refusal → Bytes → Result Refusal ℕ
number_of e w = ok_or (parse_unsigned u64_max w) e

unfoldable pub size_of : ℕ → Bytes → Result Refusal ℕ
size_of bound w = do
  n ← number_of bad_length w
  fits ← need (leb 1 n && leb n bound) bad_length
  ok n

module _ {Claim : Type 0} (parse_claim : Bytes → Result Refusal Claim) where
  unfoldable pub clipboard_set_request : List Bytes → Result Refusal (Request Claim)
  clipboard_set_request (mime ∷ len ∷ []) = do
    known ← need (has_text mime_types mime) bad_mime
    n ← number_of bad_length len
    short ← need (not (ltb clipboard_max n)) too_long
    ok (clipboard_set mime n)
  clipboard_set_request rest = err usage

  unfoldable pub transfer_request : List Bytes → Result Refusal (Request Claim)
  transfer_request (dest ∷ name ∷ []) = do
    zone ← check_zone_name dest
    file ← or_refuse bad_file (check_transfer_name name)
    ok (transfer dest name)
  transfer_request rest = err usage

  unfoldable pub time_offset_request : List Bytes → Result Refusal (Request Claim)
  time_offset_request (secs ∷ sources ∷ []) = do
    claim ← parse_claim (secs ++ (b' ' ∷ sources))
    ok (time_offset claim)
  time_offset_request rest = err usage

  unfoldable pub update_latest_request : List Bytes → Result Refusal (Request Claim)
  update_latest_request (plen ∷ slen ∷ []) = do
    p ← size_of pointer_max plen
    s ← size_of pointer_max slen
    ok (update_latest p s)
  update_latest_request rest = err usage

  unfoldable pub update_put_request : List Bytes → Result Refusal (Request Claim)
  update_put_request (name ∷ offset ∷ len ∷ []) = do
    file ← or_refuse bad_file (check_transfer_name name)
    at ← number_of bad_offset offset
    n ← size_of put_max len
    ok (update_put name at n)
  update_put_request rest = err usage

  -- A verb with no argument.
  abbrev pub alone :
      Request Claim → Result Refusal (Request Claim) → List Bytes → Result Refusal (Request Claim)
  alone r other [] = ok r
  alone r other (w ∷ rest) = other

  -- The match on a verb and its arguments.
  unfoldable pub request_of : Bytes → List Bytes → Result Refusal (Request Claim)
  request_of verb rest =
      if eq_bytes verb (ascii "version")
      then alone version (ok (unknown verb)) rest
      else if eq_bytes verb (ascii "clipboard-get")
      then alone clipboard_get (ok (unknown verb)) rest
      else if eq_bytes verb (ascii "clipboard-set")
      then clipboard_set_request rest
      else if eq_bytes verb (ascii "clipboard-move")
      then ok (not_a_zone_verb verb)
      else if eq_bytes verb (ascii "transfer")
      then transfer_request rest
      else if eq_bytes verb (ascii "time-offset")
      then time_offset_request rest
      else if eq_bytes verb (ascii "update-latest")
      then update_latest_request rest
      else if eq_bytes verb (ascii "update-poll")
      then alone update_poll (err usage) rest
      else if eq_bytes verb (ascii "update-put")
      then update_put_request rest
      else if eq_bytes verb (ascii "stick")
      then alone stick (err usage) rest
      else ok (unknown verb)

  -- The words of a line.
  abbrev pub request_of_words : List Bytes → Result Refusal (Request Claim)
  request_of_words [] = err empty_request
  request_of_words (verb ∷ rest) = request_of verb rest

  unfoldable pub parse_request : Bytes → Result Refusal (Request Claim)
  parse_request line = request_of_words (split_whitespace line)
