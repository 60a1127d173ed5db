-- ===== src/Kryptikd/Update/Versions/Swapped.antt =====
-- `version_cmp` of compartments/kryptikd/src/update.rs the other way round, and with more fuel.
use kryptik_os.Common.{
  ℕ, zero, suc, ◌+◌, ◌≤◌, ◌≡◌, refl, sym, arith, Bool, true, false, ◌&&◌, [], ◌∷◌, if◌then◌else◌,
  length, Bytes, is_digit, inl, inr, Bool-cases, both, ◌∙◌,
}
use kryptik_os.Kryptikd.Update.Versions.{
  Order, less, equal, greater, compare_ℕ, or_then, compare_bytes, run, behind_run, strip,
  compare_runs, version_loop, version_cmp,
}

abbrev pub flip : Order → Order
flip less = greater
flip equal = equal
flip greater = less

flip-or_then : (a b : Order) → flip (or_then a b) ≡ or_then (flip a) (flip b)
flip-or_then less b = refl
flip-or_then equal b = refl
flip-or_then greater b = refl

compare_ℕ-flip : (a b : ℕ) → compare_ℕ b a ≡ flip (compare_ℕ a b)
unfolding compare_ℕ
compare_ℕ-flip a b = ground arith

compare_bytes-flip : (a b : Bytes) → compare_bytes b a ≡ flip (compare_bytes a b)
unfolding compare_bytes
compare_bytes-flip [] [] = refl
compare_bytes-flip [] (y ∷ ys) = refl
compare_bytes-flip (x ∷ xs) [] = refl
compare_bytes-flip (x ∷ xs) (y ∷ ys) =
    rw
      (
        flip-or_then (compare_ℕ x y) (compare_bytes xs ys),
        compare_ℕ-flip x y,
        compare_bytes-flip xs ys,
      )
      refl

compare_runs-flip : (a b : Bytes) → compare_runs b a ≡ flip (compare_runs a b)
unfolding compare_runs
compare_runs-flip a b =
    rw
      (
        flip-or_then (compare_ℕ (length a) (length b)) (compare_bytes a b),
        compare_ℕ-flip (length a) (length b),
        compare_bytes-flip a b,
      )
      refl

or_then-flip : (a a' b b' : Order) → a' ≡ flip a → b' ≡ flip b → or_then a' b' ≡ flip (or_then a b)
or_then-flip a a' b b' h k = rw (h, k) (sym (flip-or_then a b))

if-flip :
    (p q : Bool) (a a' b b' : Order)
    → a' ≡ flip a
    → b' ≡ flip b
    → (if q && p then a' else b') ≡ flip (if p && q then a else b)
if-flip true true a a' b b' h k = h
if-flip true false a a' b b' h k = k
if-flip false true a a' b b' h k = k
if-flip false false a a' b b' h k = k

version_loop-flip : (fuel : ℕ) (a b : Bytes) → version_loop fuel b a ≡ flip (version_loop fuel a b)
unfolding version_loop
version_loop-flip zero a b = compare_ℕ-flip (length a) (length b)
version_loop-flip (suc fuel) [] [] = compare_ℕ-flip 0 0
version_loop-flip (suc fuel) [] (y ∷ b) = compare_ℕ-flip 0 (length (y ∷ b))
version_loop-flip (suc fuel) (x ∷ a) [] = compare_ℕ-flip (length (x ∷ a)) 0
version_loop-flip (suc fuel) (x ∷ a) (y ∷ b) =
    if-flip (is_digit x) (is_digit y) _ _ _ _
      (or_then-flip _ _ _ _ (compare_runs-flip (strip (run (x ∷ a))) (strip (run (y ∷ b))))
        (version_loop-flip fuel (behind_run (x ∷ a)) (behind_run (y ∷ b))))
      (or_then-flip _ _ _ _ (compare_ℕ-flip x y) (version_loop-flip fuel a b))

length-behind_run : (a : Bytes) → length (behind_run a) ≤ length a
unfolding behind_run
length-behind_run [] = omega arith
length-behind_run (c ∷ a) = ground (arith, length-behind_run a)

length-behind_digit :
    (c : ℕ) (a : Bytes) → is_digit c ≡ true → length (behind_run (c ∷ a)) ≤ length a
unfolding behind_run
length-behind_digit c a h = rw h (length-behind_run a)

-- Any fuel that the two lengths do not exceed gives the same answer.
version_loop-fuel :
    (f g : ℕ) (a b : Bytes)
    → length a + length b ≤ f
    → length a + length b ≤ g
    → version_loop f a b ≡ version_loop g a b
unfolding version_loop
version_loop-fuel zero zero a b h k = refl
version_loop-fuel zero (suc g) [] [] h k = refl
version_loop-fuel zero (suc g) [] (y ∷ b) h k = absurd (omega arith)
version_loop-fuel zero (suc g) (x ∷ a) b h k = absurd (omega arith)
version_loop-fuel (suc f) zero [] [] h k = refl
version_loop-fuel (suc f) zero [] (y ∷ b) h k = absurd (omega arith)
version_loop-fuel (suc f) zero (x ∷ a) b h k = absurd (omega arith)
version_loop-fuel (suc f) (suc g) [] [] h k = refl
version_loop-fuel (suc f) (suc g) [] (y ∷ b) h k = refl
version_loop-fuel (suc f) (suc g) (x ∷ a) [] h k = refl
version_loop-fuel (suc f) (suc g) (x ∷ a) (y ∷ b) h k =
    elim (Bool-cases (is_digit x && is_digit y)) [
      | inr other ↦ rw (other, version_loop-fuel f g a b (omega arith) (omega arith)) refl
      | inl digits ↦
          let (dx, dy) = both (is_digit x) (is_digit y) digits in
          let m = length-behind_digit x a dx in
          let n = length-behind_digit y b dy in
          rw
            (
              digits,
              version_loop-fuel f g (behind_run (x ∷ a)) (behind_run (y ∷ b)) (omega (arith, m, n))
                  (omega (arith, m, n)),
            )
            refl
    ]

self : (o : Order) → o ≡ flip o → o ≡ equal
self less h = cc
self equal h = refl
self greater h = cc

-- The answer for two versions the other way round is the flipped one, so of two versions at most
-- one is newer than the other, and none is newer than itself; and more fuel changes nothing.
pub version_cmp-flip :
    (a b : Bytes) (more : ℕ)
    → (version_cmp b a ≡ flip (version_cmp a b))
      × (version_cmp a a ≡ equal)
      × (version_loop (length a + length b + more) a b ≡ version_cmp a b)
unfolding version_cmp
version_cmp-flip a b more = (
  version_loop-fuel (length b + length a) (length a + length b) b a (omega arith) (omega arith)
      ∙ version_loop-flip (length a + length b) a b,
  self (version_cmp a a) (version_loop-flip (length a + length a) a a),
  version_loop-fuel (length a + length b + more) (length a + length b) a b (omega arith)
      (omega arith),
)
