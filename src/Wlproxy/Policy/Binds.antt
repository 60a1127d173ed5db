-- ===== src/Wlproxy/Policy/Binds.antt =====
-- What may be bound: interfaces of the tables, at versions the tables know, and none of those the
-- proxy serves itself.
use kryptik_os.Common.{
  both, eq_bytes-eq, ℕ, ◌≤◌, ◌≡◌, refl, arith, Bool, true, false, not, ◌&&◌, List, [], ◌∷◌, Option,
  none, some, leb, leb→le, Bytes, eq_bytes, inl, inr, Bool-cases,
}
use kryptik_os.Wlproxy.Protocol.{Interface}
use kryptik_os.Wlproxy.Tables.{interfaces, find_in, find}
use kryptik_os.Wlproxy.Policy.{
  bindable, version_in, allowed_version, served_names, has_name, served,
}

abbrev capped_by : Option Interface → ℕ → Bool
capped_by none v = false
capped_by (some i) v = leb v i.version

abbrev all_capped : List (Bytes × ℕ) → Bool
all_capped [] = true
all_capped ((n, v) ∷ more) =
    capped_by (find_in interfaces n) v && (not (has_name served_names n) && all_capped more)

bindable-capped : (hold_awake : Bool) → all_capped (bindable hold_awake) ≡ true
bindable-capped true = refl
bindable-capped false = refl

capped_by-some :
    (o : Option Interface) (v : ℕ)
    → capped_by o v ≡ true
    → (i : Interface) × (o ≡ some i) × (v ≤ i.version)
capped_by-some none v h = cc
capped_by-some (some i) v h = (i, refl, leb→le v i.version h)

not-true : (b : Bool) → not b ≡ true → b ≡ false
not-true b h = ground arith

version_in-capped :
    (xs : List (Bytes × ℕ)) (name : Bytes) (v : ℕ)
    → all_capped xs ≡ true
    → version_in xs name ≡ some v
    → ((i : Interface) × (find_in interfaces name ≡ some i) × (v ≤ i.version))
      × (has_name served_names name ≡ false)
version_in-capped [] name v h e = cc
version_in-capped ((n, w) ∷ more) name v h e =
    let (cap, others) = both (capped_by (find_in interfaces n) w) _ h in
    let (foreign, rest) = both (not (has_name served_names n)) (all_capped more) others in
    elim (Bool-cases (eq_bytes n name)) [
      | inl hit ↦
          let same = eq_bytes-eq n name hit in
          let version : w ≡ v = ground (arith, e, hit) in
          rw (← same, ← version)
            (
              capped_by-some (find_in interfaces n) w cap,
              not-true (has_name served_names n) foreign,
            )
      | inr miss ↦ version_in-capped more name v rest (ground (arith, e, miss))
    ]

-- An interface that may be bound is one of the tables, at no higher version than the tables know,
-- and is none that the proxy serves itself.
pub allowed_version-find :
    (name : Bytes) (hold_awake : Bool) (v : ℕ)
    → allowed_version name hold_awake ≡ some v
    → ((i : Interface) × (find name ≡ some i) × (v ≤ i.version)) × (served name ≡ false)
unfolding allowed_version find served
allowed_version-find name hold_awake v h =
    version_in-capped (bindable hold_awake) name v (bindable-capped hold_awake) h
