-- ===== src/Kryptikd/Seccomp/Widened.antt =====
-- `widened` and `widened_for` of compartments/kryptikd/src/seccomp.rs: the allowlist of a zone by
-- its policy. The numbers are the libc crate's, so the base list, the denied list and the calls of
-- a capability are arguments.
use kryptik_os.Common.{
  ℕ, ◌≡◌, refl, arith, Bool, true, false, ◌&&◌, ◌||◌, List, [], ◌∷◌, ◌++◌, Result, ok, err, ◌>>=◌,
  >>=-eq-ok, ok-eq, if◌then◌else◌, ℤ, contains_ℤ, eq_ℤ, eq_ℤ-eq, inl, inr, Bool-cases,
}
use kryptik_os.Kryptikd.Seccomp.{SeccompError, denied}
use kryptik_os.Kryptikd.Seccomp.Rules.{contains}

-- A number that is not in the list yet goes behind it.
abbrev pub add_call : List ℤ → ℤ → List ℤ
add_call allow nr = if contains_ℤ allow nr then allow else allow ++ nr ∷ []

-- `widened`, from a list on.
unfoldable pub widened : List ℤ → List ℤ → List ℤ → Result SeccompError (List ℤ)
widened allow banned [] = ok allow
widened allow banned (nr ∷ extra) =
    let rest = widened (add_call allow nr) banned extra in
    if contains_ℤ banned nr then err (denied nr) else rest

-- The loop over the calls of one capability.
unfoldable pub add_calls : List ℤ → List ℤ → List ℤ
add_calls allow [] = allow
add_calls allow (nr ∷ more) = add_calls (add_call allow nr) more

-- The loop over `CAP_CALLS`.
unfoldable pub add_kept : List (ℕ × List ℤ) → List ℕ → List ℤ → List ℤ
add_kept [] kept allow = allow
add_kept ((cap, calls) ∷ more) kept allow =
    add_kept more kept (if contains kept cap then add_calls allow calls else allow)

unfoldable pub widened_for :
    List (ℕ × List ℤ) → List ℤ → List ℤ → List ℤ → List ℕ → Result SeccompError (List ℤ)
widened_for cap_calls base banned extra kept = do
  allow ← widened base banned extra
  ok (add_kept cap_calls kept allow)

-- The calls that the kept capabilities open.
abbrev pub opened : List (ℕ × List ℤ) → List ℕ → ℤ → Bool
opened [] kept n = false
opened ((cap, calls) ∷ more) kept n = contains kept cap && contains_ℤ calls n || opened more kept n

contains-append :
    (xs : List ℤ) (x n : ℤ) → contains_ℤ (xs ++ x ∷ []) n ≡ (contains_ℤ xs n || eq_ℤ x n)
contains-append [] x n = ground arith
contains-append (y ∷ xs) x n = ground (arith, contains-append xs x n)

eq-contains :
    (xs : List ℤ) (x n : ℤ) → eq_ℤ x n ≡ true → contains_ℤ xs x ≡ true → contains_ℤ xs n ≡ true
eq-contains xs x n e h = rw (← eq_ℤ-eq x n e) h

contains-add_call :
    (xs : List ℤ) (x n : ℤ) → contains_ℤ (add_call xs x) n ≡ (contains_ℤ xs n || eq_ℤ x n)
contains-add_call xs x n = elim (Bool-cases (contains_ℤ xs x)) [
  | inr miss ↦ rw miss (contains-append xs x n)
  | inl hit ↦ elim (Bool-cases (eq_ℤ x n)) [
    | inl same ↦ ground (arith, hit, same, eq-contains xs x n same hit)
    | inr other ↦ ground (arith, hit, other)
  ]
]

contains-add_calls :
    (allow calls : List ℤ) (n : ℤ)
    → contains_ℤ (add_calls allow calls) n ≡ (contains_ℤ allow n || contains_ℤ calls n)
unfolding add_calls
contains-add_calls allow [] n = ground arith
contains-add_calls allow (x ∷ calls) n =
    ground (arith, contains-add_calls (add_call allow x) calls n, contains-add_call allow x n)

contains-add_kept :
    (cap_calls : List (ℕ × List ℤ)) (kept : List ℕ) (allow : List ℤ) (n : ℤ)
    → contains_ℤ (add_kept cap_calls kept allow) n ≡ (contains_ℤ allow n || opened cap_calls kept n)
unfolding add_kept
contains-add_kept [] kept allow n = ground arith
contains-add_kept ((cap, calls) ∷ more) kept allow n = elim (Bool-cases (contains kept cap)) [
  | inl hit ↦ ground (
    arith,
    hit,
    contains-add_kept more kept (add_calls allow calls) n,
    contains-add_calls allow calls n,
  )
  | inr miss ↦ ground (arith, miss, contains-add_kept more kept allow n)
]

if-err :
    (b : Bool) (m : Result SeccompError (List ℤ)) (e : SeccompError) (p : List ℤ)
    → (if b then err e else m) ≡ ok p
    → (b ≡ false) × (m ≡ ok p)
if-err true m e p h = cc
if-err false m e p h = (refl, h)

widened-contains :
    (allow banned extra p : List ℤ) (n : ℤ)
    → widened allow banned extra ≡ ok p
    → (contains_ℤ p n ≡ (contains_ℤ allow n || contains_ℤ extra n))
      × (contains_ℤ extra n ≡ true → contains_ℤ banned n ≡ false)
unfolding widened
widened-contains allow banned [] p n h =
    (rw (← ok-eq h) (ground arith), λ e. absurd (ground (arith, e)))
widened-contains allow banned (x ∷ extra) p n h =
    let (fine, rest) =
      if-err (contains_ℤ banned x) (widened (add_call allow x) banned extra) (denied x) p h in
    let (members, free) = widened-contains (add_call allow x) banned extra p n rest in
    (
      ground (arith, members, contains-add_call allow x n),
      λ e. elim (Bool-cases (eq_ℤ x n)) [
        | inl same ↦ rw (← eq_ℤ-eq x n same) fine
        | inr other ↦ free (ground (arith, e, other))
      ],
    )

-- The allowlist of a zone has exactly the calls of the base list, of its policy, and of the
-- capabilities it keeps; and its policy names no denied call.
pub widened_for-contains :
    (cap_calls : List (ℕ × List ℤ)) (base banned extra : List ℤ) (kept : List ℕ) (p : List ℤ)
    (n : ℤ)
    → widened_for cap_calls base banned extra kept ≡ ok p
    → (contains_ℤ p n ≡ (contains_ℤ base n || (contains_ℤ extra n || opened cap_calls kept n)))
      × (contains_ℤ extra n ≡ true → contains_ℤ banned n ≡ false)
unfolding widened_for
widened_for-contains cap_calls base banned extra kept p n h =
    let (allow, made, e) = >>=-eq-ok (widened base banned extra) _ h in
    let (members, free) = widened-contains base banned extra allow n made in
    (rw (← ok-eq e) (ground (arith, contains-add_kept cap_calls kept allow n, members)), free)
