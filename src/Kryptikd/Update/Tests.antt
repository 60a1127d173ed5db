-- ===== src/Kryptikd/Update/Tests.antt =====
-- A release of one file that is announced, asked for, verified, and arrives in two pieces.
use kryptik_os.Common.{
  ◌+◌, ◌≤◌, ◌≡◌, refl, arith, true, false, List, [], ◌∷◌, ◌++◌, Option, none, some, ok, Bytes,
  ascii, eq_bytes, ℤ, pos, trim_start, trim_end, strip_cr, lines_from, strip_prefix, split_once,
  has_char, all_chars, parse_unsigned, digits_from, length,
}
use kryptik_os.Kryptikd.Time.{days_from_civil, zone_offset, parse_iso8601}
use kryptik_os.Kryptikd.Update.Versions.{
  equal, greater, is_version, compare_ℕ, compare_bytes, run, behind_run, strip, compare_runs,
  version_loop, version_cmp,
}
use kryptik_os.Kryptikd.Update.Versions.Swapped.{flip, version_cmp-flip}
use kryptik_os.Kryptikd.Update.Pointer.{
  Pointer, set_slot, split_at, read_slots, make_pointer, parse_pointer, components, trim_slashes,
  ends_with_slash, check_scheme, resolve_base, accept_pointer,
}
use kryptik_os.Kryptikd.Update.Listing.{
  Entry, check_transfer_name, read_entry, read_entries, parse_file_list, total_from, may_append,
  may_put, still_needed,
}
use kryptik_os.Kryptikd.Update.Store.{
  Store, Checks, issued_of, judge, latest, ask, may_want, want, complete_stage, verified_files,
  staging, held, content,
}
use kryptik_os.Kryptikd.Update.Put.{
  write, write_stage, may_take, pair_in, put_in, put, judge_listing, conclude,
}
use kryptik_os.Kryptikd.Update.Server
use kryptik_os.Kryptikd.Update.Server.{
  Server, fresh, Event, stated, asked, sent, checked, take_bytes, end_check, step,
}
use kryptik_os.Kryptikd.Update.Sizes.Whole.{IsWhole, run-held, complete_stage-run}
use kryptik_os.Kryptikd.Update.Rollback.{NotOlder, IsSigned, run-NotOlder, run-IsSigned}
use kryptik_os.Kryptikd.Update.Arrival.{IsReady, joined, sends, run-sends}

abbrev line : Bytes → Bytes → Bytes
line t rest = t ++ (10 ∷ rest)

abbrev hash : Bytes
hash = ascii "00112233445566778899aabbccddeeff00112233445566778899aabbccddeeff"

abbrev production : Bytes
production = ascii "production"

abbrev two : Bytes
two = ascii "2.0"

abbrev statement : Bytes
statement = line (ascii "KRYPTIK-LATEST-1") (
    line (ascii "role: production") (
      line (ascii "version: 2.0") (
        line (ascii "issued: 2026-01-02T00:00:00Z")
          (line (ascii "manifest-sha256: " ++ hash) (line (ascii "base: r2") [])))))

abbrev listing : Bytes
listing =
    line (ascii "version: 2.0") (line (ascii "sha256: " ++ hash) (line (ascii "file 5 a.img") []))

abbrev signature : Bytes
signature = ascii "signed"

-- Checks that take one signature, and list one file for every stage.
abbrev checks : Checks
checks = record {
  is_text = λ b. true;
  pointer = λ text sig. eq_bytes sig signature;
  manifest = λ stage. some listing;
}

abbrev channel : Option Bytes
channel = some (ascii "https://example.org/channel/")

abbrev today : ℤ
today = pos 1767400000

abbrev preparation : List Event
preparation =
    stated today statement signature
    ∷ asked false
    ∷ sent today (ascii "manifest") 0 (ascii "m")
    ∷ sent today (ascii "manifest.sig") 0 (ascii "s")
    ∷ checked 100000
    ∷ []

abbrev ready_store : Store
ready_store = record {
  considered = some today;
  refused = none;
  pointer = some statement;
  wanted = some two;
  declined = none;
  auto = false;
  files = some listing;
  incoming = (two, (ascii "manifest", ascii "m") ∷ (ascii "manifest.sig", ascii "s") ∷ []) ∷ [];
  cleared = 1;
}

abbrev a_img : Entry
a_img = record { name = ascii "a.img"; size = 5 }

abbrev pieces : List Bytes
pieces = ascii "hel" ∷ ascii "lo" ∷ []

prepared :
    Server.run checks production (ascii "1.9") channel preparation fresh
    ≡ record { store = ready_store; pending = none }
unfolding Server.run step latest judge parse_pointer read_slots set_slot split_at make_pointer
    accept_pointer is_version parse_iso8601 days_from_civil zone_offset strip_cr lines_from
    strip_prefix all_chars parse_unsigned digits_from want may_want ask resolve_base check_scheme
    components trim_slashes ends_with_slash version_cmp version_loop compare_runs compare_bytes
    compare_ℕ run behind_run strip take_bytes put may_take may_put put_in pair_in write write_stage
    end_check conclude judge_listing parse_file_list read_entries read_entry check_transfer_name
    split_once has_char total_from trim_start trim_end
prepared = refl

abbrev image : Bytes
image = ascii "a.img"

abbrev whole_store : Store
whole_store = record ready_store {
  incoming =
      (
        two,
        (ascii "manifest", ascii "m")
            ∷ (ascii "manifest.sig", ascii "s")
            ∷ (image, ascii "hello")
            ∷ [],
      )
      ∷ [];
}

abbrev pointer_two : Pointer
pointer_two = record {
  role = production;
  version = two;
  issued = pos 1767312000;
  manifest_sha256 = hash;
  base = ascii "r2";
}

ready : IsReady pointer_two (a_img ∷ []) ready_store
unfolding parse_pointer read_slots set_slot split_at make_pointer is_version parse_iso8601
    days_from_civil zone_offset strip_cr lines_from strip_prefix all_chars parse_unsigned
    digits_from parse_file_list read_entries read_entry check_transfer_name split_once has_char
    trim_start trim_end
ready = record { request = refl; newest = refl; verified = refl }

run-sends_example :
    (t : Store) × (Server.run checks production
        (ascii "1.9")
        channel
        (sends today image 0 pieces)
        (record { store = ready_store; pending = none })
      ≡ record { store = t; pending = none })
    × IsReady pointer_two (a_img ∷ []) t
    × (content (staging t two) image ≡ content (staging ready_store two) image ++ joined pieces)
run-sends_example =
    run-sends today image pointer_two (a_img ∷ []) a_img refl (omega arith) checks production
      (ascii "1.9") channel pieces 0 ready_store ready (omega arith, (omega arith, tt)) refl
      (omega arith)

abbrev release : List Event
release = preparation ++ sends today image 0 pieces

arrived :
    Server.run checks production (ascii "1.9") channel release fresh
    ≡ record { store = whole_store; pending = none }
unfolding Server.run step latest judge parse_pointer read_slots set_slot split_at make_pointer
    accept_pointer is_version parse_iso8601 days_from_civil zone_offset strip_cr lines_from
    strip_prefix all_chars parse_unsigned digits_from want may_want ask resolve_base check_scheme
    components trim_slashes ends_with_slash version_cmp version_loop compare_runs compare_bytes
    compare_ℕ run behind_run strip take_bytes put may_take may_put may_append put_in pair_in write
    write_stage end_check conclude judge_listing parse_file_list read_entries read_entry
    check_transfer_name split_once has_char total_from trim_start trim_end
arrived = refl

whole_listed : verified_files whole_store two ≡ some (a_img ∷ [])
unfolding parse_file_list read_entries read_entry check_transfer_name split_once has_char strip_cr
    lines_from strip_prefix all_chars parse_unsigned digits_from
whole_listed = refl

whole_complete : complete_stage whole_store ≡ ok two
unfolding complete_stage still_needed is_version trim_start trim_end parse_file_list read_entries
    read_entry check_transfer_name split_once has_char strip_cr lines_from strip_prefix all_chars
    parse_unsigned digits_from
whole_complete = refl

run-held_example :
    held
      (staging (Server.run checks production (ascii "1.9") channel release fresh).store two)
      image
    ≤ 5
run-held_example =
    run-held checks production (ascii "1.9") channel release two (a_img ∷ []) image a_img
      (rw arrived whole_listed) refl

complete_stage-run_example :
    IsWhole
      (verified_files (Server.run checks production (ascii "1.9") channel release fresh).store two)
      (staging (Server.run checks production (ascii "1.9") channel release fresh).store two)
      image
complete_stage-run_example =
    complete_stage-run checks production (ascii "1.9") channel release two image
      (rw arrived whole_complete)

run-NotOlder_example : NotOlder (issued_of ready_store) (
    issued_of
      (Server.run checks production
        (ascii "1.9")
        channel
        release
        (record { store = ready_store; pending = none })).store)
run-NotOlder_example =
    run-NotOlder checks production (ascii "1.9") channel release
      (record { store = ready_store; pending = none })

run-IsSigned_example :
    IsSigned checks production
      (Server.run checks production (ascii "1.9") channel release fresh).store.pointer
run-IsSigned_example = run-IsSigned checks production (ascii "1.9") channel release

version_cmp-flip_example :
    (version_cmp (ascii "1.9") (ascii "1.10") ≡ flip (version_cmp (ascii "1.10") (ascii "1.9")))
    × (version_cmp (ascii "1.10") (ascii "1.10") ≡ equal)
    × (version_loop (length (ascii "1.10") + length (ascii "1.9") + 3) (ascii "1.10") (ascii "1.9")
        ≡ version_cmp (ascii "1.10") (ascii "1.9"))
version_cmp-flip_example = version_cmp-flip (ascii "1.10") (ascii "1.9") 3

ten-greater : version_cmp (ascii "1.10") (ascii "1.9") ≡ greater
unfolding version_cmp version_loop compare_runs compare_bytes compare_ℕ run behind_run strip
ten-greater = refl
