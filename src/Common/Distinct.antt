-- ===== src/Common/Distinct.antt =====
-- Lists of texts with no text twice, and how long they can be.
use Prim.Native.Nat.{ℕ, ◌+◌, ◌≤◌}
use mathlib.Core.Path.{◌≡◌, refl}
use mathlib.Core.Logic.{inl, inr}
use mathlib.Core.Bool.{Bool, true, false, not, ◌&&◌, ◌||◌}
use mathlib.Core.List.{List, [], ◌∷◌, ◌++◌}
use native.Mathlib.Omega.{arith}
use kryptik_os.Common.Booleans.{if◌then◌else◌, both, Bool-cases}
use kryptik_os.Common.Lists.{length}
use kryptik_os.Common.Texts.{eq_bytes, eq_bytes-eq, eq_bytes_refl, has_text}

abbrev pub is_set : List (List ℕ) → Bool
is_set [] = true
is_set (t ∷ ts) = not (has_text ts t) && is_set ts

abbrev pub AllOf : List (List ℕ) → List (List ℕ) → Type 0
AllOf table [] = Unit
AllOf table (t ∷ ts) = (has_text table t ≡ true) × AllOf table ts

pub has_text-append :
    (ts us : List (List ℕ)) (t : List ℕ) → has_text (ts ++ us) t ≡ (has_text ts t || has_text us t)
has_text-append [] us t = refl
has_text-append (x ∷ ts) us t = ground (arith, has_text-append ts us t)

eq_bytes-sym : (a b : List ℕ) → eq_bytes a b ≡ true → eq_bytes b a ≡ true
eq_bytes-sym a b h = rw (eq_bytes-eq a b h) (eq_bytes_refl b)

eq_bytes_comm : (a b : List ℕ) → eq_bytes a b ≡ eq_bytes b a
eq_bytes_comm a b = ground (arith, eq_bytes-sym a b, eq_bytes-sym b a)

-- A new text behind such a list.
pub is_set-snoc :
    (ts : List (List ℕ)) (t : List ℕ)
    → is_set ts ≡ true
    → has_text ts t ≡ false
    → is_set (ts ++ t ∷ []) ≡ true
is_set-snoc [] t h new = refl
is_set-snoc (x ∷ ts) t h new =
    let (apart, later) = both (not (has_text ts x)) (is_set ts) h in
    ground
      (arith, apart, new, has_text-append ts (t ∷ []) x, eq_bytes_comm x t, is_set-snoc ts t later)

pub AllOf-snoc :
    (table ts : List (List ℕ)) (t : List ℕ)
    → AllOf table ts
    → has_text table t ≡ true
    → AllOf table (ts ++ t ∷ [])
AllOf-snoc table [] t all h = (h, tt)
AllOf-snoc table (x ∷ ts) t all h = (all.0, AllOf-snoc table ts t all.1 h)

-- A table without a text.
without : List ℕ → List (List ℕ) → List (List ℕ)
without t [] = []
without t (x ∷ table) = if eq_bytes x t then without t table else x ∷ without t table

length-without : (t : List ℕ) (table : List (List ℕ)) → length (without t table) ≤ length table
unfolding without
length-without t [] = omega arith
length-without t (x ∷ table) = ground (arith, length-without t table)

length-without_member :
    (t : List ℕ) (table : List (List ℕ))
    → has_text table t ≡ true
    → length (without t table) + 1 ≤ length table
unfolding without
length-without_member t [] h = cc
length-without_member t (x ∷ table) h =
    ground (arith, h, length-without t table, length-without_member t table)

has_text-without :
    (t u : List ℕ) (table : List (List ℕ))
    → eq_bytes u t ≡ false
    → has_text table u ≡ true
    → has_text (without t table) u ≡ true
unfolding without
has_text-without t u [] apart h = cc
has_text-without t u (x ∷ table) apart h = elim (Bool-cases (eq_bytes x t)) [
  | inr other ↦ ground (arith, h, other, has_text-without t u table apart)
  | inl gone ↦ elim (Bool-cases (eq_bytes x u)) [
    | inr miss ↦ ground (arith, h, gone, miss, has_text-without t u table apart)
    | inl hit ↦
        absurd
          (let same = eq_bytes-eq x u hit in ground (arith, apart, (let g = rw same at gone in g)))
  ]
]

AllOf-without :
    (t : List ℕ) (table ts : List (List ℕ))
    → has_text ts t ≡ false
    → AllOf table ts
    → AllOf (without t table) ts
AllOf-without t table [] apart all = tt
AllOf-without t table (u ∷ ts) apart all = (
  has_text-without t u table (ground (arith, apart)) all.0,
  AllOf-without t table ts (ground (arith, apart)) all.1,
)

-- Distinct texts of a table are no more than the table has.
pub length-le-table :
    (ts table : List (List ℕ)) → is_set ts ≡ true → AllOf table ts → length ts ≤ length table
length-le-table [] table h all = omega arith
length-le-table (t ∷ ts) table h all =
    let (apart, later) = both (not (has_text ts t)) (is_set ts) h in
    let miss : has_text ts t ≡ false = ground (arith, apart) in
    omega (
      arith,
      length-without_member t table all.0,
      length-le-table ts (without t table) later (AllOf-without t table ts miss all.1),
    )
