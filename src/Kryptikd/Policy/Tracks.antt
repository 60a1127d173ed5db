-- ===== src/Kryptikd/Policy/Tracks.antt =====
-- The names that a directive of a policy file has brought so far
-- (compartments/kryptikd/src/policy.rs).
use kryptik_os.Common.{
  ◌≡◌, refl, arith, true, false, List, [], ◌∷◌, ◌++◌, some, Bytes, eq_bytes, eq_bytes-eq,
  eq_bytes_refl, has_text, is_set, AllOf, is_set-snoc, AllOf-snoc, inl, inr, Bool-cases,
}
use kryptik_os.Kryptikd.Seccomp.Names.{number_in, names}
use kryptik_os.Kryptikd.Policy.{has_seen}

-- The names of a table.
abbrev pub texts : {A : Type 0} → List (Bytes × A) → List Bytes
texts [] = []
texts ((n, v) ∷ more) = n ∷ texts more

pub has_text-number_in :
    {A : Type 0} (table : List (Bytes × A)) (name : Bytes) (v : A)
    → number_in table name ≡ some v
    → has_text (texts table) name ≡ true
has_text-number_in [] name v h = cc
has_text-number_in ((n, x) ∷ more) name v h = ground (arith, h, has_text-number_in more name v)

abbrev pub AllSeen : List (Bytes × Bytes) → Bytes → List Bytes → Type 0
AllSeen seen directive [] = Unit
AllSeen seen directive (t ∷ ts) = (has_seen seen directive t ≡ true) × AllSeen seen directive ts

-- The names that a directive brought: distinct, of its table, and all among the seen.
pub record Tracks (directive : Bytes) (table : List Bytes) (seen : List (Bytes × Bytes))
    (names : List Bytes) : Type 0 where
  pub distinct : is_set names ≡ true
  pub known : AllOf table names
  pub all_seen : AllSeen seen directive names

pub AllSeen-more :
    (seen : List (Bytes × Bytes)) (d a directive : Bytes) (names : List Bytes)
    → AllSeen seen directive names
    → AllSeen ((d, a) ∷ seen) directive names
AllSeen-more seen d a directive [] all = tt
AllSeen-more seen d a directive (t ∷ ts) all =
    (ground (arith, all.0), AllSeen-more seen d a directive ts all.1)

pub AllSeen-snoc :
    (seen : List (Bytes × Bytes)) (directive : Bytes) (names : List Bytes) (t : Bytes)
    → AllSeen seen directive names
    → has_seen seen directive t ≡ true
    → AllSeen seen directive (names ++ t ∷ [])
AllSeen-snoc seen directive [] t all h = (h, tt)
AllSeen-snoc seen directive (x ∷ ts) t all h = (all.0, AllSeen-snoc seen directive ts t all.1 h)

-- What was not seen is not among the names.
pub not-seen :
    (seen : List (Bytes × Bytes)) (directive : Bytes) (names : List Bytes) (t : Bytes)
    → AllSeen seen directive names
    → has_seen seen directive t ≡ false
    → has_text names t ≡ false
not-seen seen directive [] t all new = refl
not-seen seen directive (x ∷ ts) t all new = elim (Bool-cases (eq_bytes x t)) [
  | inr other ↦ ground (arith, other, not-seen seen directive ts t all.1 new)
  | inl same ↦ absurd (
      let h : has_seen seen directive t ≡ true = rw (← eq_bytes-eq x t same) all.0 in
      ground (arith, h, new))
]

pub Tracks-more :
    (directive : Bytes) (table : List Bytes) (seen : List (Bytes × Bytes)) (names : List Bytes)
    (d a : Bytes)
    → Tracks directive table seen names
    → Tracks directive table ((d, a) ∷ seen) names
Tracks-more directive table seen names d a r = record {
  distinct = r.distinct;
  known = r.known;
  all_seen = AllSeen-more seen d a directive names r.all_seen;
}

pub Tracks-new :
    (directive : Bytes) (table : List Bytes) (seen : List (Bytes × Bytes)) (names : List Bytes)
    (a : Bytes)
    → Tracks directive table seen names
    → has_seen seen directive a ≡ false
    → has_text table a ≡ true
    → Tracks directive table ((directive, a) ∷ seen) (names ++ a ∷ [])
Tracks-new directive table seen names a r new member = record {
  distinct = is_set-snoc names a r.distinct (not-seen seen directive names a r.all_seen new);
  known = AllOf-snoc table names a r.known member;
  all_seen =
      AllSeen-snoc ((directive, a) ∷ seen) directive names a
        (AllSeen-more seen directive a directive names r.all_seen)
        (ground (arith, eq_bytes_refl directive, eq_bytes_refl a));
}
