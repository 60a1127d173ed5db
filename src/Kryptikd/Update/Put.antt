-- ===== src/Kryptikd/Update/Put.antt =====
-- `put` of compartments/kryptikd/src/update.rs: bytes of the release that was asked for. While the
-- manifest is checked the lock is open, so `put` is two steps, and other operations may come
-- between them.
use kryptik_os.Common.{
  ℕ, ◌+◌, Bool, false, not, ◌||◌, List, [], ◌∷◌, ◌++◌, Option, none, some, Result, ok, err, ◌>>=◌,
  ok_or, ltb, ◌==◌, if◌then◌else◌, length, Bytes, ascii, eq_bytes, strip_prefix, text_lines, ℤ,
}
use kryptik_os.Kryptikd.Update.Pointer.{
  UpdateError, nothing_asked, not_newest, refused_lately, check_failed, stage_cleared,
  wrong_release, wrong_manifest, no_room, Pointer, check,
}
use kryptik_os.Kryptikd.Update.Listing.{Entry, parse_file_list, total_bytes, may_put}
use kryptik_os.Kryptikd.Update.Store.{
  Files, Store, Checks, wanted_version, wanted_pointer, staging, content, held, verified_files,
  is_listing_of, is_recent,
}

-- The files of a stage with one changed: appended to, or made anew.
unfoldable pub write : Files → Bytes → Bytes → Files
write [] name bytes = (name, bytes) ∷ []
write ((n, old) ∷ more) name bytes =
    if eq_bytes n name then (n, bytes) ∷ more else (n, old) ∷ write more name bytes

unfoldable pub write_stage : List (Bytes × Files) → Bytes → Files → List (Bytes × Files)
write_stage [] v stage = (v, stage) ∷ []
write_stage ((w, old) ∷ more) v stage =
    if eq_bytes w v then (w, stage) ∷ more else (w, old) ∷ write_stage more v stage

-- A check of a manifest that runs with the lock open: what it is for, the stage, and how many
-- stages had been removed when it was opened.
pub record Pending : Type 0 where
  pub version : Bytes
  pub sha : Bytes
  pub stage : Files
  pub opened : ℕ
  pub now : ℤ

pub data Outcome : Type 0 where
  failed : UpdateError → Outcome
  arriving complete : Outcome
  checking : Pending → Outcome

-- The guards of `put`.
unfoldable pub may_take :
    Bytes → ℕ → Bytes → Store → Result UpdateError (Pointer × Option (List Entry))
may_take name offset bytes s = do
  v ← ok_or (wanted_version s) nothing_asked
  p ← ok_or (wanted_pointer s v) not_newest
  fine ← may_put (verified_files s v) name offset (length bytes) (held (staging s v) name)
  ok (p, verified_files s v)

abbrev pub is_complete : List Entry → Bytes → ℕ → Outcome
is_complete [] name have = if have == 0 then complete else arriving
is_complete (e ∷ es) name have =
    let rest = is_complete es name have in
    if eq_bytes e.name name then (if have == e.size then complete else arriving) else rest

-- The removal of a stage whose manifest is refused.
unfoldable pub remove_stage : Bytes → Store → Store
remove_stage v s = record s { incoming = write_stage s.incoming v []; cleared = s.cleared + 1 }

-- Behind the write of a manifest or its signature.
unfoldable pub pair_in : ℤ → Pointer → Store → Outcome × Store
pair_in now p s =
    let stage = staging s p.version in
    if held stage (ascii "manifest") == 0 || held stage (ascii "manifest.sig") == 0
    then (complete, s)
    else if is_recent now s.refused
    then (failed refused_lately, remove_stage p.version s)
    else (
      checking (record {
        version = p.version;
        sha = p.manifest_sha256;
        stage = stage;
        opened = s.cleared;
        now = now;
      }),
      s,
    )

-- The write of bytes that are taken, and what follows it.
unfoldable pub put_in :
    ℤ → Bytes → ℕ → Bytes → Store → Pointer → Option (List Entry) → Outcome × Store
put_in now name offset bytes s p none =
    let stage = write (staging s p.version) name bytes in
    pair_in now p (record s { incoming = write_stage s.incoming p.version stage })
put_in now name offset bytes s p (some fs) =
    let stage = write (staging s p.version) name (content (staging s p.version) name ++ bytes) in
    (
      is_complete fs name (offset + length bytes),
      record s { incoming = write_stage s.incoming p.version stage },
    )

unfoldable pub put : ℤ → Bytes → ℕ → Bytes → Store → Outcome × Store
put now name offset bytes s = elim (may_take name offset bytes s) [
  | err e ↦ (failed e, s)
  | ok (p, files) ↦ put_in now name offset bytes s p files
]

abbrev pub has_sha : List Bytes → Bytes → Bool
has_sha [] sha = false
has_sha (line ∷ lines) sha = elim (strip_prefix (ascii "sha256: ") line) [
  | none ↦ has_sha lines sha
  | some t ↦ eq_bytes t sha || has_sha lines sha
]

-- What the listing of a checked manifest has to be.
unfoldable pub judge_listing : Option Bytes → Pending → ℕ → Result UpdateError Bytes
judge_listing checked p free = do
  listing ← ok_or checked check_failed
  release ← check (is_listing_of p.version listing) wrong_release
  announced ← check (has_sha (text_lines listing) p.sha) wrong_manifest
  files ← parse_file_list listing
  room ← check (not (ltb free (total_bytes files))) no_room
  ok listing

-- The rest of `put`, when the check has ended.
unfoldable pub conclude : Checks → Pending → ℕ → Store → Outcome × Store
conclude checks p free s =
    if not (s.cleared == p.opened)
    then (failed stage_cleared, s)
    else elim (judge_listing (checks.manifest p.stage) p free) [
      | err e ↦ (failed e, remove_stage p.version (record s { refused = some p.now }))
      | ok listing ↦ (complete, record s { files = some listing })
    ]
