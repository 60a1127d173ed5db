-- ===== src/Kryptikd/Update/Listing.antt =====
-- What a release holds and which bytes of it are taken: `parse_file_list`, `total_bytes`,
-- `may_put`, `still_needed` and `channel_from` of compartments/kryptikd/src/update.rs, and
-- `check_transfer_name` of compartments/kryptikd/src/broker.rs.
use kryptik_os.Common.{
  ◌++◌, ℕ, ◌+◌, Bool, false, not, ◌&&◌, ◌||◌, List, [], ◌∷◌, Option, none, some, Result, ok, err,
  ◌>>=◌, ok_or, leb, ltb, ◌==◌, if◌then◌else◌, length, Bytes, ascii, eq_bytes, is_blank, all_chars,
  has_char, starts_with, strip_prefix, split_once, parse_unsigned, text_lines, trim,
}
use kryptik_os.Kryptikd.Update.Pointer.{
  UpdateError, bad_name, bad_entry, bad_listing, no_files, nothing_to_put, overflow,
  verified_already, put_whole, not_verified, not_listed, out_of_order, past_size, is_printable,
  check,
}

abbrev pub manifest_max : ℕ
manifest_max = 65536

abbrev pub u64_max : ℕ
u64_max = 0xffffffffffffffff

-- `check_transfer_name`
unfoldable pub check_transfer_name : Bytes → Result UpdateError Bool
check_transfer_name n =
    if is_blank n || ltb 255 (length n)
    then err bad_name
    else if has_char b'/' n
    then err bad_name
    else if eq_bytes n (ascii ".") || eq_bytes n (ascii "..")
    then err bad_name
    else if starts_with (ascii ".") n
    then err bad_name
    else check (all_chars is_printable n) bad_name

pub record Entry : Type 0 where
  pub name : Bytes
  pub size : ℕ

abbrev pub lists : List Entry → Bytes → Bool
lists [] name = false
lists (e ∷ es) name = eq_bytes e.name name || lists es name

abbrev pub is_signed_name : Bytes → Bool
is_signed_name name = eq_bytes name (ascii "manifest") || eq_bytes name (ascii "manifest.sig")

-- The entry of a line behind `file `.
unfoldable pub read_entry : List Entry → Bytes → Result UpdateError Entry
read_entry out rest = do
  (size_text, name) ← ok_or (split_once b' ' rest) bad_listing
  size ← ok_or (parse_unsigned u64_max size_text) bad_listing
  fine ← check_transfer_name name
  fresh ← check (not (is_signed_name name || lists out name)) bad_entry
  ok (record { name = name; size = size })

-- The loop over the lines, with the entries so far.
unfoldable pub read_entries : List Entry → List Bytes → Result UpdateError (List Entry)
read_entries out [] = ok out
read_entries out (line ∷ lines) =
    let skipped = read_entries out lines in
    elim (strip_prefix (ascii "file ") line) [
      | none ↦ skipped
      | some rest ↦ read_entry out rest >>= λ e. read_entries (out ++ e ∷ []) lines
    ]

abbrev pub any_files : List Entry → Result UpdateError (List Entry)
any_files [] = err no_files
any_files (e ∷ es) = ok (e ∷ es)

unfoldable pub parse_file_list : Bytes → Result UpdateError (List Entry)
parse_file_list text = read_entries [] (text_lines text) >>= any_files

-- `u64::saturating_add`
unfoldable pub total_from : ℕ → List Entry → ℕ
total_from sum [] = sum
total_from sum (e ∷ es) =
    total_from (if leb u64_max (sum + e.size) then u64_max else sum + e.size) es

abbrev pub total_bytes : List Entry → ℕ
total_bytes files = total_from 0 files

abbrev pub find_entry : List Entry → Bytes → Option Entry
find_entry [] name = none
find_entry (e ∷ es) name = if eq_bytes e.name name then some e else find_entry es name

-- Bytes of a listed file.
unfoldable pub may_append : List Entry → Bytes → ℕ → ℕ → ℕ → Result UpdateError Bool
may_append files name offset end held = do
  e ← ok_or (find_entry files name) not_listed
  ordered ← check (offset == held) out_of_order
  check (not (ltb e.size end)) past_size

unfoldable pub may_put : Option (List Entry) → Bytes → ℕ → ℕ → ℕ → Result UpdateError Bool
may_put files name offset len held =
    let end = offset + len in
    let listed : Result UpdateError Bool = elim files [
      | none ↦ err not_verified
      | some fs ↦ may_append fs name offset end held
    ] in
    let signed : Result UpdateError Bool = elim files [
      | some fs ↦ err verified_already
      | none ↦ check (not (not (offset == 0) || ltb manifest_max end)) put_whole
    ] in
    if len == 0
    then err nothing_to_put
    else if ltb u64_max end
    then err overflow
    else if is_signed_name name
    then signed
    else listed

-- Each missing file and the byte it resumes at.
unfoldable pub still_needed : List Entry → (Bytes → ℕ) → List (Bytes × ℕ)
still_needed [] held = []
still_needed (e ∷ es) held =
    let rest = still_needed es held in
    if ltb (held e.name) e.size then (e.name, held e.name) ∷ rest else rest

-- The address of the first line `channel = <address>`.
unfoldable pub channel_in : List Bytes → Option Bytes
channel_in [] = none
channel_in (line ∷ lines) =
    let rest = channel_in lines in
    elim (split_once b'=' line) [
      | none ↦ rest
      | some (k, v) ↦
          if eq_bytes (trim k) (ascii "channel") && not (is_blank (trim v))
          then some (trim v)
          else rest
    ]

abbrev pub channel_from : Bytes → Option Bytes
channel_from conf = channel_in (text_lines conf)
