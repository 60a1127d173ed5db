-- ===== src/Kryptikd/Update/Pointer.antt =====
-- The statement of what is current: `Pointer`, `parse_pointer`, `resolve_base`, `accept_pointer`,
-- `staleness` and `behind` of compartments/kryptikd/src/update.rs. Messages are not modelled.
use kryptik_os.Common.{
  ℕ, Bool, true, false, not, ◌&&◌, ◌||◌, List, [], ◌∷◌, ◌++◌, Option, none, some, Result, ok, err,
  ◌>>=◌, ok_or, leb, ◌==◌, if◌then◌else◌, length, Bytes, ascii, eq_bytes, is_blank, is_digit,
  all_chars, starts_with, strip_prefix, text_lines, ℤ, pos, ◌-ℤ◌, ◌/ℤ◌, leb_ℤ, ltb_ℤ,
  saturating_add,
}
use kryptik_os.Kryptikd.Time.{parse_iso8601}
use kryptik_os.Kryptikd.Update.Versions.{is_version, version_cmp, is_greater}

abbrev pub pointer_magic : Bytes
pointer_magic = ascii "KRYPTIK-LATEST-1"

abbrev pub stale_after_secs : ℕ
stale_after_secs = 2592000

abbrev pub max_ahead_secs : ℕ
max_ahead_secs = 86400

pub data UpdateError : Type 0 where
  bad_magic bad_line unknown_key twice missing_key bad_version bad_date bad_hash bad_base :
      UpdateError
  outside_channel plain_http no_scheme wrong_role from_the_future replay : UpdateError
  too_soon not_text unsigned no_pointer nothing_newer no_channel being_applied : UpdateError
  nothing_asked not_newest bad_listing bad_entry bad_name no_files nothing_to_put overflow :
      UpdateError
  verified_already put_whole not_verified not_listed out_of_order past_size : UpdateError
  refused_lately check_failed stage_cleared wrong_release wrong_manifest no_room : UpdateError
  still_arriving : UpdateError

pub record Pointer : Type 0 where
  pub role : Bytes
  pub version : Bytes
  pub issued : ℤ
  pub manifest_sha256 : Bytes
  pub base : Bytes

-- The five slots of `parse_pointer`.
pub record Slots : Type 0 where
  pub role : Option Bytes
  pub version : Option Bytes
  pub issued : Option Bytes
  pub sha : Option Bytes
  pub base : Option Bytes

abbrev pub no_slots : Slots
no_slots = record { role = none; version = none; issued = none; sha = none; base = none }

-- `slot.replace(v).is_some()` of a key given before.
abbrev pub fill : Option Bytes → Slots → Result UpdateError Slots
fill none s = ok s
fill (some v) s = err twice

unfoldable pub set_slot : Slots → Bytes → Bytes → Result UpdateError Slots
set_slot s k v =
    if eq_bytes k (ascii "role")
    then fill s.role (record s { role = some v })
    else if eq_bytes k (ascii "version")
    then fill s.version (record s { version = some v })
    else if eq_bytes k (ascii "issued")
    then fill s.issued (record s { issued = some v })
    else if eq_bytes k (ascii "manifest-sha256")
    then fill s.sha (record s { sha = some v })
    else if eq_bytes k (ascii "base")
    then fill s.base (record s { base = some v })
    else err unknown_key

-- `str::split_once` at a colon and a space, or at `://`: at the first place of a text.
unfoldable pub split_at : Bytes → Bytes → Option (Bytes × Bytes)
split_at mark [] = none
split_at mark (c ∷ cs) = elim (strip_prefix mark (c ∷ cs)) [
  | some rest ↦ some ([], rest)
  | none ↦ elim (split_at mark cs) [ none ↦ none | some (a, b) ↦ some (c ∷ a, b) ]
]

-- The loop over the lines.
unfoldable pub read_slots : Slots → List Bytes → Result UpdateError Slots
read_slots s [] = ok s
read_slots s (line ∷ lines) = do
  (k, v) ← ok_or (split_at (ascii ": ") line) bad_line
  s' ← set_slot s k v
  read_slots s' lines

abbrev pub is_hex : ℕ → Bool
is_hex c = is_digit c || leb b'a' c && leb c b'f'

abbrev pub is_printable : ℕ → Bool
is_printable c = leb 0x21 c && leb c 0x7e

abbrev pub check : Bool → UpdateError → Result UpdateError Bool
check true e = ok true
check false e = err e

unfoldable pub make_pointer : Slots → Result UpdateError Pointer
make_pointer s = do
  role ← ok_or s.role missing_key
  version ← ok_or s.version missing_key
  issued ← ok_or s.issued missing_key
  sha ← ok_or s.sha missing_key
  base ← ok_or s.base missing_key
  valid ← check (is_version version) bad_version
  date ← ok_or (parse_iso8601 issued) bad_date
  hash ← check (length sha == 64 && all_chars is_hex sha) bad_hash
  url ←
      check (not (is_blank base) && (leb (length base) 512 && all_chars is_printable base)) bad_base
  ok (record { role = role; version = version; issued = date; manifest_sha256 = sha; base = base })

-- `parse_pointer`
abbrev pub read_pointer : List Bytes → Result UpdateError Pointer
read_pointer [] = err bad_magic
read_pointer (magic ∷ lines) =
    if eq_bytes magic pointer_magic
    then (read_slots no_slots lines >>= make_pointer)
    else err bad_magic

unfoldable pub parse_pointer : Bytes → Result UpdateError Pointer
parse_pointer text = read_pointer (text_lines text)

-- The components of a path.
unfoldable pub components : Bytes → Bytes → List Bytes
components word [] = word ∷ []
components word (c ∷ cs) =
    if c == b'/' then word ∷ components [] cs else components (word ++ c ∷ []) cs

abbrev pub has_parent : List Bytes → Bool
has_parent [] = false
has_parent (c ∷ cs) = eq_bytes c (ascii "..") || has_parent cs

-- `trim_end_matches('/')`
unfoldable pub trim_slashes : Bytes → Bytes
trim_slashes [] = []
trim_slashes (c ∷ cs) =
    let rest = trim_slashes cs in if is_blank rest && c == b'/' then [] else c ∷ rest

unfoldable pub ends_with_slash : Bytes → Bool
ends_with_slash [] = false
ends_with_slash (c ∷ []) = c == b'/'
ends_with_slash (c ∷ d ∷ cs) = ends_with_slash (d ∷ cs)

abbrev pub is_absolute : Bytes → Bool
is_absolute base = elim (split_at (ascii "://") base) [ none ↦ false | some p ↦ true ]

abbrev pub with_slash : Bytes → Bytes
with_slash url = if ends_with_slash url then url else url ++ b'/' ∷ []

-- The scheme of a URL, which has to be https but on a development image.
unfoldable pub check_scheme : Bytes → Bytes → Result UpdateError Bytes
check_scheme role url = elim (split_at (ascii "://") url) [
  | none ↦ err no_scheme
  | some (scheme, rest) ↦
      if eq_bytes scheme (ascii "https")
      then ok url
      else if eq_bytes scheme (ascii "http")
      then (if eq_bytes role (ascii "development") then ok url else err plain_http)
      else err no_scheme
]

unfoldable pub resolve_base : Bytes → Bytes → Bytes → Result UpdateError Bytes
resolve_base channel base role =
    let relative = trim_slashes channel ++ (b'/' ∷ base) in
    if is_absolute base
    then check_scheme role (with_slash base)
    else if starts_with (ascii "/") base || has_parent (components [] base)
    then err outside_channel
    else check_scheme role (with_slash relative)

pub data Standing : Type 0 where
  current : Standing
  available : Bytes → Standing

abbrev pub is_replay : ℤ → Option ℤ → Bool
is_replay issued none = false
is_replay issued (some seen) = ltb_ℤ issued seen

unfoldable pub accept_pointer : Pointer → Bytes → Bytes → Option ℤ → ℤ → Result UpdateError Standing
accept_pointer p required_role running newest_issued now =
    if not (eq_bytes p.role required_role)
    then err wrong_role
    else if ltb_ℤ (saturating_add now max_ahead_secs) p.issued
    then err from_the_future
    else if is_replay p.issued newest_issued
    then err replay
    else ok (if is_greater (version_cmp p.version running) then available p.version else current)

-- Whole days since a statement, and whether it is stale.
unfoldable pub staleness : ℤ → ℤ → ℤ × Bool
staleness now issued =
    let age = if leb_ℤ (pos 0) (now -ℤ issued) then now -ℤ issued else pos 0 in
    (age /ℤ 86400, ltb_ℤ (pos stale_after_secs) age)

unfoldable pub behind : ℤ → ℤ → Option ℤ
behind now then_ =
    if ltb_ℤ (saturating_add now max_ahead_secs) then_ then some ((then_ -ℤ now) /ℤ 86400) else none
