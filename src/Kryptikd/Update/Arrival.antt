-- ===== src/Kryptikd/Update/Arrival.antt =====
-- The pieces of a file that are sent in order (compartments/kryptikd/src/update.rs).
use kryptik_os.Common.{
  ℕ, ◌+◌, ◌≤◌, ◌≡◌, refl, sym, ap, ◌∙◌, arith, true, false, List, [], ◌∷◌, ◌++◌, Option, none, some,
  ok, ◌==◌, ltb, length, length-append, Bytes, eq_bytes_refl, inl, inr, Bool-cases, ℤ, Option-cases,
  Result-cases,
}
use mathlib.Core.List.{append_assoc, append-nil}
use mathlib.Core.Path.{subst}
use kryptik_os.Kryptikd.Update.Pointer.{Pointer}
use kryptik_os.Kryptikd.Update.Listing.{
  Entry, is_signed_name, find_entry, may_append, may_put, u64_max, parse_file_list,
}
use kryptik_os.Kryptikd.Update.Store.{
  Store, Checks, wanted_version, wanted_pointer, staging, content, held, verified_files,
  is_listing_of,
}
use kryptik_os.Kryptikd.Update.Put.{write, write_stage, may_take, put_in, put}
use kryptik_os.Kryptikd.Update.Server.{Event, sent, take_bytes, step, run}
use kryptik_os.Kryptikd.Update.Stages.{content-write, stage_in-write_stage}
use kryptik_os.Kryptikd.Update.Names.{parse_file_list-unsigned}
use kryptik_os.Kryptikd.Update.Sizes.Taken.{is_complete-started}

-- The pieces of a file, one behind the other.
abbrev pub joined : List Bytes → Bytes
joined [] = []
joined (b ∷ bs) = b ++ joined bs

abbrev pub AllSome : List Bytes → Type 0
AllSome [] = Unit
AllSome (b ∷ bs) = (1 ≤ length b) × AllSome bs

-- The pieces as they are sent, each at the byte behind the last.
abbrev pub sends : ℤ → Bytes → ℕ → List Bytes → List Event
sends now name offset [] = []
sends now name offset (b ∷ bs) = sent now name offset b ∷ sends now name (offset + length b) bs

-- A store that takes the files of a release: it was asked for, its statement is the newest, and
-- its manifest has verified.
pub record IsReady (p : Pointer) (fs : List Entry) (s : Store) : Type 0 where
  pub request : wanted_version s ≡ some p.version
  pub newest : wanted_pointer s p.version ≡ some p
  pub verified : verified_files s p.version ≡ some fs

-- What the manifest lists is no manifest.
listed-unsigned :
    (s : Store) (v name : Bytes) (fs : List Entry) (e : Entry)
    → verified_files s v ≡ some fs
    → find_entry fs name ≡ some e
    → is_signed_name name ≡ false
listed-unsigned s v name fs e verified found = elim (Option-cases s.files) [
  | inl none_yet ↦ let k = rw none_yet at verified in cc
  | inr (text, e1) ↦
      let k = rw e1 at verified in
      elim (Bool-cases (is_listing_of v text)) [
        | inr other ↦ let l = rw other at k in cc
        | inl for_v ↦
            let l = rw for_v at k in
            elim (Result-cases (parse_file_list text)) [
              | inr (why, bad) ↦ let m = rw bad at l in cc
              | inl (gs, good) ↦
                  let m = rw good at l in
                  let same : gs ≡ fs = cc in
                  parse_file_list-unsigned text name gs e good
                    (subst (λ h. find_entry h name ≡ some e) (sym same) found)
            ]
      ]
]

module _ (now : ℤ) (name : Bytes) (p : Pointer) (fs : List Entry) (e : Entry)
    (found : find_entry fs name ≡ some e) (small : e.size ≤ u64_max) where
  -- The store with bytes behind those it holds.
  abbrev grown : Store → Bytes → Store
  grown s bytes = record s {
    incoming =
        write_stage s.incoming p.version
          (write (staging s p.version) name (content (staging s p.version) name ++ bytes));
  }

  content-grown :
      (s : Store) (bytes : Bytes)
      → content (staging (grown s bytes) p.version) name
        ≡ content (staging s p.version) name ++ bytes
  content-grown s bytes =
      rw
        (
          stage_in-write_stage s.incoming p.version
              (write (staging s p.version) name (content (staging s p.version) name ++ bytes))
              p.version,
          eq_bytes_refl p.version,
        )
        (rw
          (
            content-write (staging s p.version) name (content (staging s p.version) name ++ bytes)
                name,
            eq_bytes_refl name,
          )
          refl)

  grown-IsReady : (s : Store) (bytes : Bytes) → IsReady p fs s → IsReady p fs (grown s bytes)
  grown-IsReady s bytes r = record { request = r.request; newest = r.newest; verified = r.verified }

  may_put-ready :
      (offset len : ℕ)
      → is_signed_name name ≡ false
      → 1 ≤ len
      → offset + len ≤ e.size
      → may_put (some fs) name offset len offset ≡ ok true
  unfolding may_put may_append
  may_put-ready offset len unsigned some_bytes short =
      let a : (len == 0) ≡ false = ground arith in
      let b : ltb u64_max (offset + len) ≡ false = ground (arith, small) in
      let c : (offset == offset) ≡ true = ground arith in
      let d : ltb e.size (offset + len) ≡ false = ground arith in
      rw (a, b, unsigned, found, c, d) refl

  put-ready :
      (s : Store) (offset : ℕ) (bytes : Bytes)
      → IsReady p fs s
      → offset ≡ held (staging s p.version) name
      → 1 ≤ length bytes
      → offset + length bytes ≤ e.size
      → take_bytes none now name offset bytes s ≡ record { store = grown s bytes; pending = none }
  unfolding put put_in may_take take_bytes
  put-ready s offset bytes r at_end some_bytes short =
      let unsigned = listed-unsigned s p.version name fs e r.verified found in
      let fine : may_put (some fs) name offset (length bytes) (held (staging s p.version) name)
          ≡ ok true =
        subst (λ k. may_put (some fs) name offset (length bytes) k ≡ ok true) at_end
          (may_put-ready offset (length bytes) unsigned some_bytes short) in
      let taken : may_take name offset bytes s ≡ ok (p, some fs) =
        rw (r.request, may_take) (rw (r.newest) (rw (r.verified) (rw fine refl))) in
      rw (taken, put) (rw (is_complete-started fs name (offset + length bytes)) refl)

  -- The pieces of a listed file, none empty, sent in order from the first byte that is missing:
  -- when they fit the signed size, the server takes each of them, and then holds what it held and
  -- the pieces behind it, and is ready for more.
  pub run-sends :
      (checks : Checks) (role running : Bytes) (channel : Option Bytes) (pieces : List Bytes)
      (offset : ℕ) (s : Store)
      → IsReady p fs s
      → AllSome pieces
      → offset ≡ held (staging s p.version) name
      → offset + length (joined pieces) ≤ e.size
      → (t : Store) × (run checks role running channel
            (sends now name offset pieces)
            (record { store = s; pending = none })
          ≡ record { store = t; pending = none })
        × IsReady p fs t
        × (content (staging t p.version) name ≡ content (staging s p.version) name ++ joined pieces)
  unfolding run step
  run-sends checks role running channel [] offset s r all at_end short =
      (s, refl, r, sym (append-nil (content (staging s p.version) name)))
  run-sends checks role running channel (b ∷ bs) offset s r all at_end short =
      let sum = length-append b (joined bs) in
      let held_then = content-grown s b in
      let here = put-ready s offset b r at_end all.0 (omega (arith, short, sum)) in
      let next : offset + length b ≡ held (staging (grown s b) p.version) name = omega (
        arith,
        at_end,
        ap (λ (l : Bytes). length l) held_then,
        length-append (content (staging s p.version) name) b,
      ) in
      let (t, ran, ready, holds) =
        run-sends checks role running channel bs (offset + length b) (grown s b)
          (grown-IsReady s b r) all.1 next (omega (arith, short, sum)) in
      (
        t,
        ap (run checks role running channel (sends now name (offset + length b) bs)) here ∙ ran,
        ready,
        holds
            ∙ ap (λ (l : Bytes). l ++ joined bs) held_then
            ∙ append_assoc (content (staging s p.version) name) b (joined bs),
      )
