-- ===== src/Wlproxy/Objects/Slots.antt =====
-- Vectors of slots: what a write, a push and a clearing do to a lookup and to the live count.
use kryptik_os.Common.{
  Bool, ℕ, zero, suc, ◌+◌, ◌<◌, ◌≤◌, Option, none, some, [], ◌∷◌, ◌++◌, ◌≡◌, refl, arith, ◌==◌,
  if◌then◌else◌, length, get_elem?, set,
}
use kryptik_os.Wlproxy.Protocol.{Interface}
use kryptik_os.Wlproxy.Objects.{Obj, Slots, flatten, first_free}

abbrev pub at_slot : Slots → ℕ → Option Obj
at_slot v i = flatten (get_elem? v i)

abbrev pub occupied : Option Obj → ℕ
occupied none = 0
occupied (some _) = 1

abbrev pub live_in : Slots → ℕ
live_in [] = 0
live_in (o ∷ v) = occupied o + live_in v

pub at_slot-set :
    (v : Slots) (i j : ℕ) (o : Option Obj)
    → i < length v
    → at_slot (set v i o) j ≡ (if i == j then o else at_slot v j)
at_slot-set [] i j o h = elim h [ ]
at_slot-set (x ∷ v) zero zero o h = refl
at_slot-set (x ∷ v) zero (suc j) o h = ground arith
at_slot-set (x ∷ v) (suc i) zero o h = ground arith
at_slot-set (x ∷ v) (suc i) (suc j) o h = ground (arith, at_slot-set v i j o)

pub at_slot-push :
    (v : Slots) (j : ℕ) (o : Option Obj)
    → at_slot (v ++ o ∷ []) j ≡ (if length v == j then o else at_slot v j)
at_slot-push [] zero o = refl
at_slot-push [] (suc j) o = ground arith
at_slot-push (x ∷ v) zero o = ground arith
at_slot-push (x ∷ v) (suc j) o = ground (arith, at_slot-push v j o)

pub live_in-set :
    (v : Slots) (i : ℕ) (o : Option Obj)
    → i < length v
    → live_in (set v i o) + occupied (at_slot v i) ≡ live_in v + occupied o
live_in-set [] i o h = elim h [ ]
live_in-set (x ∷ v) zero o h = omega arith
live_in-set (x ∷ v) (suc i) o h = omega (arith, live_in-set v i o (omega arith))

pub live_in-push : (v : Slots) (o : Option Obj) → live_in (v ++ o ∷ []) ≡ live_in v + occupied o
live_in-push [] o = omega arith
live_in-push (x ∷ v) o = omega (arith, live_in-push v o)

-- The objects of a vector of which a test holds.
abbrev pub weight : (Interface → Bool) → Option Obj → ℕ
weight p none = 0
weight p (some o) = if p o.0 then 1 else 0

abbrev pub tally : (Interface → Bool) → Slots → ℕ
tally p [] = 0
tally p (o ∷ v) = weight p o + tally p v

pub tally-set :
    (p : Interface → Bool) (v : Slots) (i : ℕ) (o : Option Obj)
    → i < length v
    → tally p (set v i o) + weight p (at_slot v i) ≡ tally p v + weight p o
tally-set p [] i o h = elim h [ ]
tally-set p (x ∷ v) zero o h = omega arith
tally-set p (x ∷ v) (suc i) o h = omega (arith, tally-set p v i o (omega arith))

pub tally-push :
    (p : Interface → Bool) (v : Slots) (o : Option Obj)
    → tally p (v ++ o ∷ []) ≡ tally p v + weight p o
tally-push p [] o = omega arith
tally-push p (x ∷ v) o = omega (arith, tally-push p v o)

pub get_elem?-lt : (v : Slots) (i : ℕ) (o : Option Obj) → get_elem? v i ≡ some o → i < length v
get_elem?-lt [] i o h = cc
get_elem?-lt (x ∷ v) zero o h = omega arith
get_elem?-lt (x ∷ v) (suc i) o h = omega (arith, get_elem?-lt v i o h)

-- The first free slot is free, and is the next one where all are taken.
pub first_free-free : (v : Slots) → (at_slot v (first_free v) ≡ none) × (first_free v ≤ length v)
unfolding first_free
first_free-free [] = (refl, omega arith)
first_free-free (none ∷ v) = (refl, omega arith)
first_free-free (some o ∷ v) = ground (arith, first_free-free v)
