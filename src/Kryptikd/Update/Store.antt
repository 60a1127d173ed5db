-- ===== src/Kryptikd/Update/Store.antt =====
-- The state of the update channel and what changes it: `latest`, `want`, `forget`, `set_auto`,
-- `poll`, `discard_stage`, `complete_stage` and `forget_unless_trial` of
-- compartments/kryptikd/src/update.rs. A store is the directory with its files. The signature
-- checks and the release that runs are parameters; the file system is taken not to fail.
use kryptik_os.Common.{
  ℕ, ◌+◌, Bool, true, false, not, ◌&&◌, ◌||◌, List, [], ◌∷◌, ◌++◌, Option, none, some, Result, ok,
  err, ◌>>=◌, ok_or, and_then, ltb, ◌==◌, if◌then◌else◌, length, Bytes, ascii, eq_bytes, text_lines,
  trim, ℤ, ◌-ℤ◌, abs_ℤ,
}
use kryptik_os.Kryptikd.Update.Versions.{is_version, version_cmp, is_greater}
use kryptik_os.Kryptikd.Update.Pointer.{
  UpdateError, too_soon, not_text, unsigned, no_pointer, nothing_newer, no_channel, being_applied,
  nothing_asked, not_verified, still_arriving, Pointer, parse_pointer, resolve_base, Standing,
  accept_pointer, check,
}
use kryptik_os.Kryptikd.Update.Listing.{Entry, parse_file_list, still_needed}

abbrev pub pointer_interval_secs : ℕ
pointer_interval_secs = 3600

-- A directory of files by name.
abbrev pub Files : Type 0
Files = List (Bytes × Bytes)

-- The times and the switch `auto` are as they are read, which is `none` and off for a file that is
-- missing or damaged. `cleared` counts the stages that were removed, by which a stage held open
-- is known to be gone.
pub record Store : Type 0 where
  pub considered : Option ℤ
  pub refused : Option ℤ
  pub pointer : Option Bytes
  pub wanted : Option Bytes
  pub declined : Option Bytes
  pub auto : Bool
  pub files : Option Bytes
  pub incoming : List (Bytes × Files)
  pub cleared : ℕ

abbrev pub empty_store : Store
empty_store = record {
  considered = none;
  refused = none;
  pointer = none;
  wanted = none;
  declined = none;
  auto = false;
  files = none;
  incoming = [];
  cleared = 0;
}

-- `Checks`: whether a signature is good, and what check-manifest prints for a stage, if it is.
pub record Checks : Type 0 where
  pub is_text : Bytes → Bool
  pub pointer : Bytes → Bytes → Bool
  pub manifest : Files → Option Bytes

abbrev pub to_option : {A : Type 0} → Result UpdateError A → Option A
to_option (ok a) = some a
to_option (err e) = none

abbrev pub stored_pointer : Store → Option Pointer
stored_pointer s = and_then s.pointer (λ text. to_option (parse_pointer text))

abbrev pub version_of : Bytes → Option Bytes
version_of text = if is_version (trim text) then some (trim text) else none

-- `wanted` and `declined`
abbrev pub wanted_version : Store → Option Bytes
wanted_version s = and_then s.wanted version_of

abbrev pub declined_version : Store → Option Bytes
declined_version s = and_then s.declined version_of

abbrev pub is_version_of : Option Bytes → Bytes → Bool
is_version_of none v = false
is_version_of (some w) v = eq_bytes w v

abbrev pub stage_in : List (Bytes × Files) → Bytes → Files
stage_in [] v = []
stage_in ((w, stage) ∷ more) v = if eq_bytes w v then stage else stage_in more v

-- The directory of a version, which is empty if there is none.
abbrev pub staging : Store → Bytes → Files
staging s v = stage_in s.incoming v

abbrev pub content : Files → Bytes → Bytes
content [] name = []
content ((n, bytes) ∷ more) name = if eq_bytes n name then bytes else content more name

abbrev pub held : Files → Bytes → ℕ
held stage name = length (content stage name)

abbrev pub first_line : Bytes → List Bytes → Bool
first_line line [] = false
first_line line (l ∷ lines) = eq_bytes l line

abbrev pub is_listing_of : Bytes → Bytes → Bool
is_listing_of v text = first_line (ascii "version: " ++ v) (text_lines text)

abbrev pub verified_files : Store → Bytes → Option (List Entry)
verified_files s v =
    and_then s.files λ text. if is_listing_of v text then to_option (parse_file_list text) else none

-- Whether a time is within an interval of another.
abbrev pub is_recent : ℤ → Option ℤ → Bool
is_recent now none = false
is_recent now (some t) = ltb (abs_ℤ (now -ℤ t)) pointer_interval_secs

abbrev pub clear_stage : Store → Store
clear_stage s = record s { files = none; incoming = []; cleared = s.cleared + 1 }

-- What an operation answers, and the store behind it.
abbrev pub Answer : Type 0 → Type 0
Answer A = Result UpdateError A × Store

abbrev pub issued_of : Store → Option ℤ
issued_of s = and_then (stored_pointer s) (λ p. some p.issued)

-- A signed statement, parsed and accepted.
unfoldable pub judge : Bytes → Bytes → ℤ → Bytes → Store → Result UpdateError Standing
judge role running now text s = do
  p ← parse_pointer text
  accept_pointer p role running (issued_of s) now

abbrev pub keep_pointer : Bytes → Store → Result UpdateError Standing → Answer Standing
keep_pointer text s (ok standing) = (ok standing, record s { pointer = some text })
keep_pointer text s (err e) = (err e, s)

unfoldable pub latest : Checks → Bytes → Bytes → ℤ → Bytes → Bytes → Store → Answer Standing
latest checks role running now text sig s =
    let looked = record s { considered = some now } in
    if is_recent now s.considered
    then (err too_soon, s)
    else if not (checks.is_text text)
    then (err not_text, looked)
    else if not (checks.pointer text sig)
    then (err unsigned, looked)
    else keep_pointer text looked (judge role running now text looked)

-- What `want` does for a version that it may ask for.
unfoldable pub ask : Bool → Bytes → Store → Answer Bytes
ask applying v s =
    let asked = λ (t : Store). record t { wanted = some v; declined = none } in
    if is_version_of (wanted_version s) v
    then (ok v, asked s)
    else if applying
    then (err being_applied, s)
    else (ok v, asked (clear_stage s))

-- The guards of `want`: the version that may be asked for.
unfoldable pub may_want : Option Bytes → Bytes → Bytes → Store → Result UpdateError Bytes
may_want channel role running s = do
  p ← ok_or (stored_pointer s) no_pointer
  newer ← check (is_greater (version_cmp p.version running)) nothing_newer
  address ← ok_or channel no_channel
  url ← resolve_base address p.base role
  ok p.version

unfoldable pub want : Option Bytes → Bytes → Bytes → Bool → Store → Answer Bytes
want channel role running applying s = elim (may_want channel role running s) [
  | err e ↦ (err e, s)
  | ok v ↦ ask applying v s
]

unfoldable pub forget : Bool → Store → Answer Bytes
forget applying s = elim (wanted_version s) [
  | none ↦ (err nothing_asked, s)
  | some v ↦
      if applying
      then (err being_applied, s)
      else (ok v, clear_stage (record s { declined = some v; wanted = none }))
]

unfoldable pub set_auto : Bool → Option Bytes → Store → Answer Bool
set_auto false channel s = (ok false, record s { auto = false })
set_auto true none s = (err no_channel, s)
set_auto true (some address) s = (ok true, record s { auto = true })

-- The manifest and its signature, as far as they are missing.
abbrev pub signed_needed : Files → List (Bytes × ℕ)
signed_needed stage =
    (if held stage (ascii "manifest") == 0 then (ascii "manifest", 0) ∷ [] else [])
    ++ (if held stage (ascii "manifest.sig") == 0 then (ascii "manifest.sig", 0) ∷ [] else [])

abbrev pub needed : Store → ℤ → Bytes → Option (List (Bytes × ℕ))
needed s now v = elim (verified_files s v) [
  | some fs ↦ some (still_needed fs (held (staging s v)))
  | none ↦ if is_recent now s.refused then none else some (signed_needed (staging s v))
]

-- The pointer of the release asked for.
abbrev pub wanted_pointer : Store → Bytes → Option Pointer
wanted_pointer s v =
    and_then (stored_pointer s) (λ p. if eq_bytes p.version v then some p else none)

unfoldable pub outstanding :
    Bytes → Bytes → Bytes → ℤ → Store → Option (Bytes × Bytes × List (Bytes × ℕ))
outstanding channel role running now s = and_then (wanted_version s) λ v.
    and_then (wanted_pointer s v) λ p.
      if is_greater (version_cmp v running)
      then and_then (to_option (resolve_base channel p.base role))
          (λ base. and_then (needed s now v) (λ need. some (v, base, need)))
      else none

-- Whether the poll asks by itself.
abbrev pub asks_unprompted : Store → Bool
asks_unprompted s = elim (stored_pointer s) [
  | none ↦ false
  | some p ↦
      s.auto
      && (not (is_version_of (wanted_version s) p.version)
          && not (is_version_of (declined_version s) p.version))
]

-- What the poll answers: the version to fetch, from where, and what of it; or nothing.
abbrev pub some_needed :
    Option (Bytes × Bytes × List (Bytes × ℕ)) → Option (Bytes × Bytes × List (Bytes × ℕ))
some_needed none = none
some_needed (some (v, base, [])) = none
some_needed (some (v, base, n ∷ need)) = some (v, base, n ∷ need)

unfoldable pub poll :
    Bytes → Bytes → Bytes → Bool → ℤ → Store → Option (Bytes × Bytes × List (Bytes × ℕ)) × Store
poll channel role running applying now s =
    let s' = if asks_unprompted s then (want (some channel) role running applying s).1 else s in
    (some_needed (outstanding channel role running now s'), s')

unfoldable pub discard_stage : Store → Store
discard_stage s = clear_stage s

abbrev pub stage_complete : Bytes → List (Bytes × ℕ) → Result UpdateError Bytes
stage_complete v [] = ok v
stage_complete v (n ∷ need) = err still_arriving

unfoldable pub complete_stage : Store → Result UpdateError Bytes
complete_stage s = do
  v ← ok_or (wanted_version s) nothing_asked
  files ← ok_or (verified_files s v) not_verified
  stage_complete v (still_needed files (held (staging s v)))

-- `forget_unless_trial`, by whether a trial is to be judged or has failed.
unfoldable pub forget_unless_trial : Bool → Bytes → Store → Store
forget_unless_trial trial running s = elim (wanted_version s) [
  | none ↦ s
  | some v ↦
      if trial || is_greater (version_cmp v running)
      then s
      else clear_stage (record s { wanted = none })
]
