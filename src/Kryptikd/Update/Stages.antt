-- ===== src/Kryptikd/Update/Stages.antt =====
-- Reading a stage behind a write (compartments/kryptikd/src/update.rs).
use kryptik_os.Common.{
  ◌≡◌, refl, arith, true, false, List, [], ◌∷◌, if◌then◌else◌, Bytes, eq_bytes, eq_bytes-eq,
  eq_bytes_refl, inl, inr, Bool-cases,
}
use kryptik_os.Kryptikd.Update.Store.{Files, stage_in, content}
use kryptik_os.Kryptikd.Update.Put.{write, write_stage}

pub eq_bytes_trans : (a b c : Bytes) → eq_bytes a b ≡ true → eq_bytes a c ≡ eq_bytes b c
eq_bytes_trans a b c h = rw (eq_bytes-eq a b h) refl

pub content-write :
    (stage : Files) (name bytes n : Bytes)
    → content (write stage name bytes) n ≡ (if eq_bytes name n then bytes else content stage n)
unfolding write
content-write [] name bytes n = refl
content-write ((m, old) ∷ more) name bytes n = elim (Bool-cases (eq_bytes m name)) [
  | inl hit ↦ rw (hit, eq_bytes_trans m name n hit) (ground arith)
  | inr miss ↦ rw miss (elim (Bool-cases (eq_bytes m n)) [
    | inr other ↦ rw other (content-write more name bytes n)
    | inl found ↦ rw found (
        let apart : eq_bytes name n ≡ false = elim (Bool-cases (eq_bytes name n)) [
          | inr no_match ↦ no_match
          | inl same ↦ absurd (
              let e : eq_bytes m name ≡ true =
                rw (eq_bytes-eq m n found, eq_bytes-eq name n same) (eq_bytes_refl n) in
              ground (arith, e, miss))
        ] in
        rw apart refl)
  ])
]

pub stage_in-write_stage :
    (stages : List (Bytes × Files)) (v : Bytes) (stage : Files) (w : Bytes)
    → stage_in (write_stage stages v stage) w ≡ (if eq_bytes v w then stage else stage_in stages w)
unfolding write_stage
stage_in-write_stage [] v stage w = refl
stage_in-write_stage ((u, old) ∷ more) v stage w = elim (Bool-cases (eq_bytes u v)) [
  | inl hit ↦ rw (hit, eq_bytes_trans u v w hit) (ground arith)
  | inr miss ↦ rw miss (elim (Bool-cases (eq_bytes u w)) [
    | inr other ↦ rw other (stage_in-write_stage more v stage w)
    | inl found ↦ rw found (
        let apart : eq_bytes v w ≡ false = elim (Bool-cases (eq_bytes v w)) [
          | inr no_match ↦ no_match
          | inl same ↦ absurd (
              let e : eq_bytes u v ≡ true =
                rw (eq_bytes-eq u w found, eq_bytes-eq v w same) (eq_bytes_refl w) in
              ground (arith, e, miss))
        ] in
        rw apart refl)
  ])
]
