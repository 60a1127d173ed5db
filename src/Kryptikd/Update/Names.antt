-- ===== src/Kryptikd/Update/Names.antt =====
-- The names of a listing, and versions as they are read back
-- (compartments/kryptikd/src/update.rs).
use kryptik_os.Common.{
  ℕ, ◌≡◌, refl, ap, arith, Bool, true, false, not, ◌||◌, List, [], ◌∷◌, ◌++◌, some, ok, >>=-eq-ok,
  ok-eq, leb, length, Bytes, ascii, eq_bytes, eq_bytes-eq, is_whitespace, all_chars, trim_start,
  trim_end, trim, strip_prefix, split_once, ok_or, parse_unsigned, text_lines, both, inl, inr,
  Bool-cases, Option-cases,
}
use kryptik_os.Kryptikd.Update.Versions.{is_version, is_version_char, is_alphanumeric}
use kryptik_os.Kryptikd.Update.Pointer.{UpdateError, check, bad_listing, bad_entry}
use kryptik_os.Kryptikd.Update.Listing.{
  Entry, u64_max, check_transfer_name, is_signed_name, lists, read_entry, read_entries, any_files,
  parse_file_list, find_entry,
}
use kryptik_os.Kryptikd.Update.Store.{version_of}

version_char-text : (c : ℕ) → is_version_char c ≡ true → is_whitespace c ≡ false
version_char-text c h = ground (arith, h)

trim_end-version : (s : Bytes) → all_chars is_version_char s ≡ true → trim_end s ≡ s
unfolding trim_end all_chars
trim_end-version [] h = refl
trim_end-version (c ∷ s) h =
    let (here, more) = both (is_version_char c) (all_chars is_version_char s) h in
    rw (trim_end-version s more, version_char-text c here) (ground arith)

-- A version is read back as it was written.
pub version_of-version : (v : Bytes) → is_version v ≡ true → version_of v ≡ some v
unfolding is_version trim_start all_chars
version_of-version [] h = cc
version_of-version (c ∷ v) h =
    let (short, named) = both (leb (length (c ∷ v)) 32) _ h in
    let (begins, all) = both (is_alphanumeric c) (all_chars is_version_char (c ∷ v)) named in
    let (here, more) = both (is_version_char c) (all_chars is_version_char v) all in
    let e : trim (c ∷ v) ≡ c ∷ v = rw (version_char-text c here) (trim_end-version (c ∷ v) all) in
    rw (e, h) refl

pub version_of-is_version : (text v : Bytes) → version_of text ≡ some v → is_version v ≡ true
version_of-is_version text v h = ground (arith, h)

abbrev AllUnsigned : List Entry → Type 0
AllUnsigned [] = Unit
AllUnsigned (e ∷ es) = (is_signed_name e.name ≡ false) × AllUnsigned es

AllUnsigned-snoc :
    (es : List Entry) (e : Entry)
    → AllUnsigned es
    → is_signed_name e.name ≡ false
    → AllUnsigned (es ++ e ∷ [])
AllUnsigned-snoc [] e all h = (h, tt)
AllUnsigned-snoc (x ∷ es) e all h = (all.0, AllUnsigned-snoc es e all.1 h)

pub check-ok : (b : Bool) (e : UpdateError) {x : Bool} → check b e ≡ ok x → b ≡ true
check-ok true e h = refl
check-ok false e h = cc

read_entry-unsigned :
    (out : List Entry) (rest : Bytes) (e : Entry)
    → read_entry out rest ≡ ok e
    → is_signed_name e.name ≡ false
unfolding read_entry
read_entry-unsigned out rest e h =
    let ((size_text, name), a, h1) = >>=-eq-ok (ok_or (split_once b' ' rest) bad_listing) _ h in
    let (size, b, h2) = >>=-eq-ok (ok_or (parse_unsigned u64_max size_text) bad_listing) _ h1 in
    let (fine, c, h3) = >>=-eq-ok (check_transfer_name name) _ h2 in
    let (fresh, d, h4) =
      >>=-eq-ok (check (not (is_signed_name name || lists out name)) bad_entry) _ h3 in
    let ok_name = check-ok (not (is_signed_name name || lists out name)) bad_entry d in
    let unsigned : is_signed_name name ≡ false = ground (arith, ok_name) in
    let same : name ≡ e.name = ap (λ (x : Entry). x.name) (ok-eq h4) in rw (← same) unsigned

read_entries-AllUnsigned :
    (lines : List Bytes) (out files : List Entry)
    → AllUnsigned out
    → read_entries out lines ≡ ok files
    → AllUnsigned files
unfolding read_entries strip_prefix
read_entries-AllUnsigned [] out files all h = rw (← ok-eq h) all
read_entries-AllUnsigned (line ∷ lines) out files all h =
    elim (Option-cases (strip_prefix (ascii "file ") line)) [
      | inl other ↦ let k = rw other at h in read_entries-AllUnsigned lines out files all k
      | inr (rest, entry) ↦
          let k = rw entry at h in
          let (e, made, later) = >>=-eq-ok (read_entry out rest) _ k in
          read_entries-AllUnsigned lines (out ++ e ∷ []) files
            (AllUnsigned-snoc out e all (read_entry-unsigned out rest e made)) later
    ]

AllUnsigned-find :
    (files : List Entry) (name : Bytes) (e : Entry)
    → AllUnsigned files
    → find_entry files name ≡ some e
    → is_signed_name name ≡ false
AllUnsigned-find [] name e all h = cc
AllUnsigned-find (x ∷ files) name e all h = elim (Bool-cases (eq_bytes x.name name)) [
  | inl hit ↦ rw (← eq_bytes-eq x.name name hit) all.0
  | inr miss ↦ let k = rw miss at h in AllUnsigned-find files name e all.1 k
]

any_files-eq : (es files : List Entry) → any_files es ≡ ok files → es ≡ files
any_files-eq [] files h = cc
any_files-eq (e ∷ es) files h = ok-eq h

-- A listing names neither the manifest nor its signature.
pub parse_file_list-unsigned :
    (text name : Bytes) (files : List Entry) (e : Entry)
    → parse_file_list text ≡ ok files
    → find_entry files name ≡ some e
    → is_signed_name name ≡ false
unfolding parse_file_list
parse_file_list-unsigned text name files e h found =
    let (es, read, some_files) = >>=-eq-ok (read_entries [] (text_lines text)) any_files h in
    let all = read_entries-AllUnsigned (text_lines text) [] es tt read in
    AllUnsigned-find files name e (rw (← any_files-eq es files some_files) all) found
