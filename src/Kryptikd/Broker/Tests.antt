-- ===== src/Kryptikd/Broker/Tests.antt =====
-- Lines of a zone.
use kryptik_os.Common.{
  ℕ, ◌≡◌, refl, Result, ok, err, Bytes, ascii, words_from, has_char, strip_prefix, all_chars,
  parse_unsigned, digits_from,
}
use kryptik_os.Kryptikd.Update.Listing.{check_transfer_name}
use kryptik_os.Kryptikd.Broker.{
  Request, Refusal, bad_claim, bad_file, update_put, check_zone_name, size_of, transfer_request,
  update_put_request, request_of, parse_request,
}
use kryptik_os.Kryptikd.Broker.Requests.{parse_request-IsWithin}
use kryptik_os.Kryptikd.Broker.Bounds.{IsWithin}

-- A parser of claims that takes none.
abbrev no_claim : Bytes → Result Refusal ℕ
no_claim text = err bad_claim

abbrev piece : Request ℕ
piece = update_put (ascii "a.img") 3 2

piece-parsed : parse_request no_claim (ascii "update-put  a.img 3 2") ≡ ok piece
unfolding parse_request words_from request_of update_put_request size_of check_transfer_name
    has_char strip_prefix all_chars parse_unsigned digits_from
piece-parsed = refl

parse_request-IsWithin_example : IsWithin piece
parse_request-IsWithin_example =
    parse_request-IsWithin no_claim (ascii "update-put  a.img 3 2") piece piece-parsed

parent-refused : parse_request no_claim (ascii "transfer work ../x") ≡ err bad_file
unfolding parse_request words_from request_of transfer_request check_zone_name check_transfer_name
    has_char strip_prefix all_chars
parent-refused = refl
