-- ===== src/Kryptikd/Broker/Requests.antt =====
-- The bounds of a request that is accepted (compartments/kryptikd/src/broker.rs).
use kryptik_os.Common.{
  ℕ, ◌≤◌, ◌≡◌, arith, Bool, true, false, not, List, [], ◌∷◌, ◌++◌, Result, ok, >>=-eq-ok, ok-eq,
  ltb, if◌then◌else◌, Bytes, ascii, eq_bytes, has_text, split_whitespace,
}
use mathlib.Core.Path.{subst}
use kryptik_os.Kryptikd.Update.Listing.{check_transfer_name}
use kryptik_os.Kryptikd.Broker.{
  clipboard_max, pointer_max, put_max, mime_types, Request, version, clipboard_get, update_poll,
  stick, unknown, Refusal, bad_mime, bad_length, too_long, bad_file, bad_offset, need,
  check_zone_name, or_refuse, number_of, size_of, clipboard_set_request, transfer_request,
  time_offset_request, update_latest_request, update_put_request, alone, request_of,
  request_of_words, parse_request,
}
use kryptik_os.Kryptikd.Broker.Bounds.{
  IsWithin, check_transfer_name-IsFileName, or_refuse-ok, need-ok, check_zone_name-IsZoneName,
  number_of-le, size_of_bounds,
}

not-ltb-le : (bound n : ℕ) → not (ltb bound n) ≡ true → n ≤ bound
not-ltb-le bound n h = ground (arith, h)

module _ {Claim : Type 0} (parse_claim : Bytes → Result Refusal Claim) (r : Request Claim) where
  clipboard_set-IsWithin :
      (rest : List Bytes) → clipboard_set_request parse_claim rest ≡ ok r → IsWithin r
  unfolding clipboard_set_request
  clipboard_set-IsWithin (mime ∷ len ∷ []) h =
      let (x, known, h1) = >>=-eq-ok (need (has_text mime_types mime) bad_mime) _ h in
      let (n, read, h2) = >>=-eq-ok (number_of bad_length len) _ h1 in
      let (y, short, h3) = >>=-eq-ok (need (not (ltb clipboard_max n)) too_long) _ h2 in
      let fine = need-ok (not (ltb clipboard_max n)) too_long y short in
      subst IsWithin (ok-eq h3)
        (need-ok (has_text mime_types mime) bad_mime x known, not-ltb-le clipboard_max n fine)
  clipboard_set-IsWithin [] h = cc
  clipboard_set-IsWithin (a ∷ []) h = cc
  clipboard_set-IsWithin (a ∷ b ∷ c ∷ more) h = cc

  transfer-IsWithin : (rest : List Bytes) → transfer_request parse_claim rest ≡ ok r → IsWithin r
  unfolding transfer_request
  transfer-IsWithin (dest ∷ name ∷ []) h =
      let (x, zone, h1) = >>=-eq-ok (check_zone_name dest) _ h in
      let (y, file, h2) = >>=-eq-ok (or_refuse bad_file (check_transfer_name name)) _ h1 in
      subst IsWithin (ok-eq h2) (
        check_zone_name-IsZoneName dest x zone,
        check_transfer_name-IsFileName name y
            (or_refuse-ok bad_file (check_transfer_name name) y file),
      )
  transfer-IsWithin [] h = cc
  transfer-IsWithin (a ∷ []) h = cc
  transfer-IsWithin (a ∷ b ∷ c ∷ more) h = cc

  time_offset-IsWithin :
      (rest : List Bytes) → time_offset_request parse_claim rest ≡ ok r → IsWithin r
  unfolding time_offset_request
  time_offset-IsWithin (secs ∷ sources ∷ []) h =
      let (claim, read, h1) = >>=-eq-ok (parse_claim (secs ++ (b' ' ∷ sources))) _ h in
      subst IsWithin (ok-eq h1) tt
  time_offset-IsWithin [] h = cc
  time_offset-IsWithin (a ∷ []) h = cc
  time_offset-IsWithin (a ∷ b ∷ c ∷ more) h = cc

  update_latest-IsWithin :
      (rest : List Bytes) → update_latest_request parse_claim rest ≡ ok r → IsWithin r
  unfolding update_latest_request
  update_latest-IsWithin (plen ∷ slen ∷ []) h =
      let (p, read, h1) = >>=-eq-ok (size_of pointer_max plen) _ h in
      let (s, read2, h2) = >>=-eq-ok (size_of pointer_max slen) _ h1 in
      subst IsWithin (ok-eq h2)
        (size_of_bounds pointer_max plen p read, size_of_bounds pointer_max slen s read2)
  update_latest-IsWithin [] h = cc
  update_latest-IsWithin (a ∷ []) h = cc
  update_latest-IsWithin (a ∷ b ∷ c ∷ more) h = cc

  update_put-IsWithin :
      (rest : List Bytes) → update_put_request parse_claim rest ≡ ok r → IsWithin r
  unfolding update_put_request
  update_put-IsWithin (name ∷ offset ∷ len ∷ []) h =
      let (y, file, h1) = >>=-eq-ok (or_refuse bad_file (check_transfer_name name)) _ h in
      let (at, read, h2) = >>=-eq-ok (number_of bad_offset offset) _ h1 in
      let (n, sized, h3) = >>=-eq-ok (size_of put_max len) _ h2 in
      subst IsWithin (ok-eq h3) (
        check_transfer_name-IsFileName name y
            (or_refuse-ok bad_file (check_transfer_name name) y file),
        (number_of-le bad_offset offset at read, size_of_bounds put_max len n sized),
      )
  update_put-IsWithin [] h = cc
  update_put-IsWithin (a ∷ []) h = cc
  update_put-IsWithin (a ∷ b ∷ []) h = cc
  update_put-IsWithin (a ∷ b ∷ c ∷ d ∷ more) h = cc

  alone-IsWithin :
      (q : Request Claim) (other : Result Refusal (Request Claim)) (rest : List Bytes)
      → IsWithin q
      → (other ≡ ok r → IsWithin r)
      → alone parse_claim q other rest ≡ ok r
      → IsWithin r
  alone-IsWithin q other [] within later h = subst IsWithin (ok-eq h) within
  alone-IsWithin q other (w ∷ rest) within later h = later h

  if-IsWithin :
      (b : Bool) (m n : Result Refusal (Request Claim))
      → (m ≡ ok r → IsWithin r)
      → (n ≡ ok r → IsWithin r)
      → (if b then m else n) ≡ ok r
      → IsWithin r
  if-IsWithin true m n h k e = h e
  if-IsWithin false m n h k e = k e

  unknown-IsWithin :
      (verb : Bytes)
      → ◌≡◌ {A = Result Refusal (Request Claim)} (ok (unknown verb)) (ok r)
      → IsWithin r
  unknown-IsWithin verb h = subst IsWithin (ok-eq h) tt

  request_of-IsWithin :
      (verb : Bytes) (rest : List Bytes) → request_of parse_claim verb rest ≡ ok r → IsWithin r
  unfolding request_of
  request_of-IsWithin verb rest =
      if-IsWithin (eq_bytes verb (ascii "version")) _ _
        (alone-IsWithin version _ rest tt (unknown-IsWithin verb))
        (if-IsWithin (eq_bytes verb (ascii "clipboard-get")) _ _
          (alone-IsWithin clipboard_get _ rest tt (unknown-IsWithin verb))
          (if-IsWithin (eq_bytes verb (ascii "clipboard-set")) _ _ (clipboard_set-IsWithin rest) (
            if-IsWithin (eq_bytes verb (ascii "clipboard-move")) _ _
              (λ h. subst IsWithin (ok-eq h) tt)
              (if-IsWithin (eq_bytes verb (ascii "transfer")) _ _ (transfer-IsWithin rest) (
                if-IsWithin (eq_bytes verb (ascii "time-offset")) _ _ (time_offset-IsWithin rest) (
                  if-IsWithin (eq_bytes verb (ascii "update-latest")) _ _
                    (update_latest-IsWithin rest)
                    (if-IsWithin (eq_bytes verb (ascii "update-poll")) _ _
                      (alone-IsWithin update_poll _ rest tt (λ h. cc))
                      (if-IsWithin (eq_bytes verb (ascii "update-put")) _ _
                        (update_put-IsWithin rest)
                        (if-IsWithin (eq_bytes verb (ascii "stick")) _ _
                          (alone-IsWithin stick _ rest tt (λ h. cc))
                          (unknown-IsWithin verb))))))))))

-- Whatever line a zone sends, a request that is accepted is within the bounds of its verb: a file
-- is named by one component of a path of at most 255 printable characters that is no dotfile, a
-- destination by at most 12 characters of zone names, a clipboard is of a known type and at most
-- 1 MiB, a statement and its signature have 1 to 8192 bytes each, and a piece of a release 1 byte
-- to 1 MiB, from an offset of 64 bits.
pub parse_request-IsWithin :
    {Claim : Type 0} (parse_claim : Bytes → Result Refusal Claim) (line : Bytes) (r : Request Claim)
    → parse_request parse_claim line ≡ ok r
    → IsWithin r
unfolding parse_request
parse_request-IsWithin parse_claim line r h = words (split_whitespace line) h
  where
    words : (ws : List Bytes) → request_of_words parse_claim ws ≡ ok r → IsWithin r
    words [] k = cc
    words (verb ∷ rest) k = request_of-IsWithin parse_claim r verb rest k
