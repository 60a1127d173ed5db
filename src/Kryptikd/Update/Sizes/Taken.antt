-- ===== src/Kryptikd/Update/Sizes/Taken.antt =====
-- What a stage may hold behind a `put` and the end of a check
-- (compartments/kryptikd/src/update.rs).
use kryptik_os.Common.{
  ℕ, ◌+◌, ◌≡◌, refl, sym, ap, arith, Bool, true, false, ◌||◌, List, [], ◌∷◌, ◌++◌, Option, none,
  some, ok, ◌==◌, ==_iff, if◌then◌else◌, length, length-append, Bytes, ascii, eq_bytes, eq_bytes-eq,
  inl, inr, Bool-cases, Result-cases, ℤ,
}
use mathlib.Core.Path.{subst}
use kryptik_os.Kryptikd.Update.Pointer.{Pointer}
use kryptik_os.Kryptikd.Update.Listing.{
  Entry, parse_file_list, is_signed_name, find_entry, may_put, parse_file_list,
}
use kryptik_os.Kryptikd.Update.Store.{
  to_option, is_listing_of, Files, Store, Checks, is_recent, wanted_version, is_version_of, staging,
  content, held, verified_files,
}
use kryptik_os.Kryptikd.Update.Put.{
  Pending, write, write_stage, may_take, remove_stage, pair_in, is_complete, put_in, put,
  judge_listing, conclude,
}
use kryptik_os.Kryptikd.Update.Server.{started}
use kryptik_os.Kryptikd.Update.Stages.{content-write, stage_in-write_stage}
use kryptik_os.Kryptikd.Update.Names.{parse_file_list-unsigned}
use kryptik_os.Kryptikd.Update.Sizes.{FitsIn, IsSound}
use kryptik_os.Kryptikd.Update.Takes.{may_put-none, may_put-some, may_take-Parts}

signed-apart :
    (name n : Bytes)
    → is_signed_name name ≡ true
    → is_signed_name n ≡ false
    → eq_bytes name n ≡ false
signed-apart name n signed unsigned = elim (Bool-cases (eq_bytes name n)) [
  | inr other ↦ other
  | inl same ↦
      let e : is_signed_name n ≡ true =
        subst (λ m. is_signed_name m ≡ true) (eq_bytes-eq name n same) signed in
      absurd (ground (arith, e, unsigned))
]

-- A stage with the new bytes: appended to a listed file, or a new manifest.
abbrev stage_with : Option (List Entry) → Files → Bytes → Bytes → Files
stage_with none stage name bytes = write stage name bytes
stage_with (some files) stage name bytes = write stage name (content stage name ++ bytes)

-- A stage with the bytes that `may_put` takes.
stage_with-FitsIn :
    (files : Option (List Entry)) (stage : Files) (name : Bytes) (offset : ℕ) (bytes : Bytes)
    (x : Bool)
    → may_put files name offset (length bytes) (held stage name) ≡ ok x
    → FitsIn files stage
    → FitsIn files (stage_with files stage name bytes)
stage_with-FitsIn none stage name offset bytes x taken fits = λ n unsigned.
    let signed = may_put-none name offset (length bytes) (held stage name) x taken in
    rw (content-write stage name bytes n, signed-apart name n signed unsigned) (fits n unsigned)
stage_with-FitsIn (some fs) stage name offset bytes x taken fits = λ n e found.
    let (e', found', at_end, short) =
      may_put-some fs name offset (length bytes) (held stage name) x taken in
    rw (content-write stage name (content stage name ++ bytes) n)
      (elim (Bool-cases (eq_bytes name n)) [
        | inr other ↦ rw other (fits n e found)
        | inl same ↦
            let here : find_entry fs n ≡ some e' =
              subst (λ m. find_entry fs m ≡ some e') (eq_bytes-eq name n same) found' in
            let one : e' ≡ e = cc in
            let size : e'.size ≡ e.size = ap (λ (r : Entry). r.size) one in
            rw same (omega (arith, size, short, at_end, length-append (content stage name) bytes))
      ])

module _ (s : Store) (v : Bytes) (stage : Files) where
  -- Other stages stay, and other stages than that of the version asked for are empty.
  abbrev staged : Store
  staged = record s { incoming = write_stage s.incoming v stage }

  staged-own :
      wanted_version s ≡ some v
      → ((w : Bytes) → is_version_of (wanted_version s) w ≡ false → staging s w ≡ [])
      → (w : Bytes) → is_version_of (wanted_version s) w ≡ false
      → staging staged w ≡ []
  staged-own asked own w miss =
      let apart : eq_bytes v w ≡ false = subst (λ o. is_version_of o w ≡ false) asked miss in
      rw (stage_in-write_stage s.incoming v stage w, apart) (own w miss)

  staged-fits :
      FitsIn (verified_files s v) stage
      → ((w : Bytes) → FitsIn (verified_files s w) (staging s w))
      → (w : Bytes) → FitsIn (verified_files s w) (staging staged w)
  staged-fits here fits w =
      subst (FitsIn (verified_files s w)) (sym (stage_in-write_stage s.incoming v stage w))
        (elim (Bool-cases (eq_bytes v w)) [
          | inr other ↦ rw other (fits w)
          | inl same ↦
              rw same (subst (λ u. FitsIn (verified_files s u) stage) (eq_bytes-eq v w same) here)
        ])

-- A stage whose manifest is refused is removed.
remove-IsSound :
    (s : Store) (v : Bytes)
    → wanted_version s ≡ some v
    → verified_files s v ≡ none
    → IsSound none s
    → IsSound none (remove_stage v s)
unfolding remove_stage
remove-IsSound s v asked unverified h = record {
  own = staged-own s v [] asked h.own;
  fits = staged-fits s v [] (subst (λ o. FitsIn o []) (sym unverified) (λ n unsigned. refl)) h.fits;
  waits = tt;
}

pair_in-IsSound :
    (now : ℤ) (p : Pointer) (s : Store)
    → wanted_version s ≡ some p.version
    → verified_files s p.version ≡ none
    → IsSound none s
    → IsSound (started (pair_in now p s).0) (pair_in now p s).1
unfolding pair_in
pair_in-IsSound now p s asked unverified h =
    elim (Bool-cases (
      held (staging s p.version) (ascii "manifest") == 0
      || held (staging s p.version) (ascii "manifest.sig") == 0)) [
        | inl partial ↦ rw (partial, pair_in) h
        | inr both_in ↦ elim (Bool-cases (is_recent now s.refused)) [
          | inl soon ↦ rw (both_in, soon, pair_in) (remove-IsSound s p.version asked unverified h)
          | inr later ↦
              rw (both_in, later, pair_in)
                (record {
                  own = h.own;
                  fits = h.fits;
                  waits = (omega arith, λ e. (asked, unverified));
                })
        ]
      ]

pub is_complete-started :
    (fs : List Entry) (name : Bytes) (have : ℕ) → started (is_complete fs name have) ≡ none
is_complete-started [] name have = ground arith
is_complete-started (e ∷ fs) name have = ground (arith, is_complete-started fs name have)

put-files :
    (now : ℤ) (name : Bytes) (offset : ℕ) (bytes : Bytes) (s : Store) (p : Pointer)
    (files : Option (List Entry))
    → wanted_version s ≡ some p.version
    → verified_files s p.version ≡ files
    → IsSound none (staged s p.version (stage_with files (staging s p.version) name bytes))
    → IsSound
        (started (put_in now name offset bytes s p files).0)
        (put_in now name offset bytes s p files).1
unfolding put_in
put-files now name offset bytes s p none asked verified kept =
    pair_in-IsSound now p (staged s p.version (stage_with none (staging s p.version) name bytes))
      asked verified kept
put-files now name offset bytes s p (some fs) asked verified kept =
    subst
      (λ o. IsSound o (staged s p.version (stage_with (some fs) (staging s p.version) name bytes)))
      (sym (is_complete-started fs name (offset + length bytes))) kept

pub put-taken :
    (now : ℤ) (name : Bytes) (offset : ℕ) (bytes : Bytes) (s : Store) (p : Pointer)
    (files : Option (List Entry))
    → may_take name offset bytes s ≡ ok (p, files)
    → IsSound none s
    → IsSound (started (put now name offset bytes s).0) (put now name offset bytes s).1
unfolding put
put-taken now name offset bytes s p files taken h =
    let (asked, verified, x, fine) = may_take-Parts name offset bytes s p files taken in
    let stage = stage_with files (staging s p.version) name bytes in
    let fit : FitsIn files stage =
      stage_with-FitsIn files (staging s p.version) name offset bytes x fine
        (subst (λ o. FitsIn o (staging s p.version)) verified (h.fits p.version)) in
    let kept : IsSound none (staged s p.version stage) = record {
      own = staged-own s p.version stage asked h.own;
      fits = staged-fits s p.version stage (subst (λ o. FitsIn o stage) (sym verified) fit) h.fits;
      waits = tt;
    } in
    rw (taken, put) (put-files now name offset bytes s p files asked verified kept)

pub put-IsSound :
    (now : ℤ) (name : Bytes) (offset : ℕ) (bytes : Bytes) (s : Store)
    → IsSound none s
    → IsSound (started (put now name offset bytes s).0) (put now name offset bytes s).1
unfolding put
put-IsSound now name offset bytes s h = elim (Result-cases (may_take name offset bytes s)) [
  | inr (e, stopped) ↦ rw (stopped, put) h
  | inl ((p, files), taken) ↦ unfold put in put-taken now name offset bytes s p files taken h
]

-- What a stage holds when its manifest is verified: no file of the listing yet.
to_option-FitsIn :
    (listing : Bytes) (stage : Files) (b : Bool)
    → FitsIn none stage
    → FitsIn (if b then to_option (parse_file_list listing) else none) stage
to_option-FitsIn listing stage false none_yet = none_yet
to_option-FitsIn listing stage true none_yet = elim (Result-cases (parse_file_list listing)) [
  | inr (e, bad) ↦ rw bad none_yet
  | inl (fs, good) ↦ rw good (λ name e found.
      let empty = none_yet name (parse_file_list-unsigned listing name fs e good found) in
      omega (arith, empty))
]

listed-fits :
    (s : Store) (v listing : Bytes)
    → wanted_version s ≡ some v
    → verified_files s v ≡ none
    → IsSound none s
    → (w : Bytes) → FitsIn (verified_files (record s { files = some listing }) w) (staging s w)
listed-fits s v listing asked unverified h w =
    to_option-FitsIn listing (staging s w) (is_listing_of w listing)
      (elim (Bool-cases (eq_bytes v w)) [
        | inl same ↦
            subst (λ u. FitsIn none (staging s u)) (eq_bytes-eq v w same)
              (subst (λ o. FitsIn o (staging s v)) unverified (h.fits v))
        | inr other ↦
            subst (FitsIn none)
              (sym (h.own w (subst (λ o. is_version_of o w ≡ false) (sym asked) other)))
              (λ n unsigned. refl)
      ])

-- The listing that a check ends with, for the version that is still asked for.
listed-IsSound :
    (s : Store) (v listing : Bytes)
    → wanted_version s ≡ some v
    → verified_files s v ≡ none
    → IsSound none s
    → IsSound none (record s { files = some listing })
listed-IsSound s v listing asked unverified h = record {
  own = h.own;
  fits = λ w. listed-fits s v listing asked unverified h w;
  waits = tt;
}

pub conclude-IsSound :
    (checks : Checks) (p : Pending) (free : ℕ) (s : Store)
    → IsSound (some p) s
    → IsSound none (conclude checks p free s).1
unfolding conclude
conclude-IsSound checks p free s h =
    let still : IsSound none s = record { own = h.own; fits = h.fits; waits = tt } in
    elim (Bool-cases (s.cleared == p.opened)) [
      | inr gone ↦ rw (gone, conclude) still
      | inl here ↦
          let (asked, unverified) = (h.waits).1 ((==_iff s.cleared p.opened).0 here) in
          elim (Result-cases (judge_listing (checks.manifest p.stage) p free)) [
            | inl (listing, e) ↦
                rw (here, e, conclude) (listed-IsSound s p.version listing asked unverified still)
            | inr (why, e) ↦
                rw (here, e, conclude)
                  (remove-IsSound (record s { refused = some p.now }) p.version asked unverified
                    (record { own = h.own; fits = h.fits; waits = tt }))
          ]
    ]
