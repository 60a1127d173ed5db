-- ===== src/Kryptikd/Update/Takes.antt =====
-- The guards of a `put` that is not refused (compartments/kryptikd/src/update.rs).
use kryptik_os.Common.{
  ℕ, ◌+◌, ◌≤◌, ◌≡◌, refl, sym, ap, ◌∙◌, arith, Bool, true, false, not, List, Option, none, some,
  Result, ok, err, ok_or, >>=-eq-ok, ltb, ◌==◌, ==_iff, if◌then◌else◌, length, Bytes, eq_bytes,
  eq_bytes-eq, inl, inr, Bool-cases, Option-cases,
}
use mathlib.Core.Path.{subst}
use kryptik_os.Kryptikd.Update.Pointer.{
  UpdateError, Pointer, check, nothing_asked, not_newest, out_of_order, past_size,
}
use kryptik_os.Kryptikd.Update.Listing.{
  Entry, is_signed_name, find_entry, may_append, may_put, u64_max,
}
use kryptik_os.Kryptikd.Update.Store.{
  Store, wanted_version, stored_pointer, wanted_pointer, staging, held, verified_files,
}
use kryptik_os.Kryptikd.Update.Put.{may_take}
use kryptik_os.Kryptikd.Update.Names.{check-ok}

pub stop-ok :
    {A : Type 0} (b : Bool) (e : UpdateError) (m : Result UpdateError A) (x : A)
    → (if b then err e else m) ≡ ok x
    → (b ≡ false) × (m ≡ ok x)
stop-ok true e m x h = cc
stop-ok false e m x h = (refl, h)

-- What `may_put` takes before the manifest is verified.
pub may_put-none :
    (name : Bytes) (offset len held : ℕ) (x : Bool)
    → may_put none name offset len held ≡ ok x
    → is_signed_name name ≡ true
unfolding may_put
may_put-none name offset len held x h =
    let (some_bytes, h1) = stop-ok (len == 0) _ _ x h in
    let (fits, h2) = stop-ok (ltb u64_max (offset + len)) _ _ x h1 in
    elim (Bool-cases (is_signed_name name)) [
      | inl signed ↦ signed
      | inr other ↦ let k = rw other at h2 in cc
    ]

-- And then: the next bytes of a listed file, none past its size.
pub may_put-some :
    (fs : List Entry) (name : Bytes) (offset len held : ℕ) (x : Bool)
    → may_put (some fs) name offset len held ≡ ok x
    → (e : Entry) × (find_entry fs name ≡ some e) × (offset ≡ held) × (offset + len ≤ e.size)
unfolding may_put may_append
may_put-some fs name offset len held x h =
    let (some_bytes, h1) = stop-ok (len == 0) _ _ x h in
    let (fits, h2) = stop-ok (ltb u64_max (offset + len)) _ _ x h1 in
    elim (Bool-cases (is_signed_name name)) [
      | inl signed ↦ let k = rw signed at h2 in cc
      | inr other ↦ elim (Option-cases (find_entry fs name)) [
        | inl missing ↦ let k = rw (other, missing) at h2 in cc
        | inr (e, found) ↦
            let k = rw (other, found) at h2 in
            let (y, ordered, sized) = >>=-eq-ok (check (offset == held) out_of_order) _ k in
            (
              e,
              found,
              (==_iff offset held).0 (check-ok (offset == held) out_of_order ordered),
              ground (arith, check-ok (not (ltb e.size (offset + len))) past_size sized),
            )
      ]
    ]

pub wanted_pointer-version :
    (s : Store) (v : Bytes) (p : Pointer) → wanted_pointer s v ≡ some p → p.version ≡ v
wanted_pointer-version s v p h = elim (Option-cases (stored_pointer s)) [
  | inl e ↦ let k = rw e at h in cc
  | inr (q, e) ↦
      let k = rw e at h in
      elim (Bool-cases (eq_bytes q.version v)) [
        | inl same ↦
            let k' = rw same at k in let qp : q ≡ p = cc in rw (← qp) (eq_bytes-eq q.version v same)
        | inr other ↦ let k' = rw other at k in cc
      ]
]

pub ok_or-some :
    {A : Type 0} (o : Option A) (e : UpdateError) (a : A) → ok_or o e ≡ ok a → o ≡ some a
ok_or-some none e a h = cc
ok_or-some (some x) e a h = cc

abbrev pub Parts : Bytes → ℕ → Bytes → Store → Option (List Entry) → Bytes → Type 0
Parts name offset bytes s files v =
    (wanted_version s ≡ some v)
    × (verified_files s v ≡ files)
    × (x : Bool) × (may_put files name offset (length bytes) (held (staging s v) name) ≡ ok x)

-- The parts of a `put` that is taken.
pub may_take-Parts :
    (name : Bytes) (offset : ℕ) (bytes : Bytes) (s : Store) (p : Pointer)
    (files : Option (List Entry))
    → may_take name offset bytes s ≡ ok (p, files)
    → Parts name offset bytes s files p.version
unfolding may_take
may_take-Parts name offset bytes s p files h =
    let (v, asked, h1) = >>=-eq-ok (ok_or (wanted_version s) nothing_asked) _ h in
    let (q, newest, h2) = >>=-eq-ok (ok_or (wanted_pointer s v) not_newest) _ h1 in
    let (x, fine, h3) =
      >>=-eq-ok (may_put (verified_files s v) name offset (length bytes) (held (staging s v) name))
        _ h2 in
    let same = wanted_pointer-version s v q (ok_or-some _ _ q newest) in
    let want = ok_or-some (wanted_version s) _ v asked in
    let qp : q ≡ p = cc in
    let vf : verified_files s v ≡ files = cc in
    let pv : p.version ≡ v = ap (λ (r : Pointer). r.version) (sym qp) ∙ same in
    subst (λ w. Parts name offset bytes s files w) (sym pv)
      (
        want,
        vf,
        x,
        subst (λ f. may_put f name offset (length bytes) (held (staging s v) name) ≡ ok x) vf fine,
      )
