-- ===== src/Kryptikd/Update/Versions.antt =====
-- `is_version` and `version_cmp` of compartments/kryptikd/src/update.rs. Comparing gives which
-- side is greater; it recurs on fuel, and each round takes a byte of both at least.
pub mod Swapped
use kryptik_os.Common.{
  ℕ, zero, suc, ◌+◌, Bool, true, false, not, ◌&&◌, ◌||◌, List, [], ◌∷◌, leb, ltb, ◌==◌,
  if◌then◌else◌, length, Bytes, is_digit, all_chars,
}

pub data Order : Type 0 where
  less equal greater : Order

abbrev pub is_alphanumeric : ℕ → Bool
is_alphanumeric c = is_digit c || (leb b'a' c && leb c b'z' || leb b'A' c && leb c b'Z')

abbrev pub is_version_char : ℕ → Bool
is_version_char c = is_alphanumeric c || (c == b'.' || (c == b'+' || (c == b'-' || c == b'~')))

abbrev pub starts_alphanumeric : Bytes → Bool
starts_alphanumeric [] = false
starts_alphanumeric (c ∷ cs) = is_alphanumeric c

unfoldable pub is_version : Bytes → Bool
is_version s = leb (length s) 32 && (starts_alphanumeric s && all_chars is_version_char s)

unfoldable pub compare_ℕ : ℕ → ℕ → Order
compare_ℕ a b = if a == b then equal else if ltb a b then less else greater

-- `Ordering::then`
abbrev pub or_then : Order → Order → Order
or_then less o = less
or_then equal o = o
or_then greater o = greater

-- The order of slices of one length.
unfoldable pub compare_bytes : Bytes → Bytes → Order
compare_bytes [] [] = equal
compare_bytes [] (y ∷ ys) = less
compare_bytes (x ∷ xs) [] = greater
compare_bytes (x ∷ xs) (y ∷ ys) = or_then (compare_ℕ x y) (compare_bytes xs ys)

-- A run of digits at the front, and what stands behind it.
unfoldable pub run : Bytes → Bytes
run [] = []
run (c ∷ cs) = if is_digit c then c ∷ run cs else []

unfoldable pub behind_run : Bytes → Bytes
behind_run [] = []
behind_run (c ∷ cs) = if is_digit c then behind_run cs else c ∷ cs

-- `strip`: a run without its leading zeros.
unfoldable pub strip : Bytes → Bytes
strip [] = []
strip (c ∷ cs) = if c == b'0' then strip cs else c ∷ cs

unfoldable pub compare_runs : Bytes → Bytes → Order
compare_runs x y = or_then (compare_ℕ (length x) (length y)) (compare_bytes x y)

unfoldable pub version_loop : ℕ → Bytes → Bytes → Order
version_loop zero a b = compare_ℕ (length a) (length b)
version_loop (suc fuel) (x ∷ a) (y ∷ b) =
    let by_runs =
      or_then (compare_runs (strip (run (x ∷ a))) (strip (run (y ∷ b))))
        (version_loop fuel (behind_run (x ∷ a)) (behind_run (y ∷ b))) in
    let by_bytes = or_then (compare_ℕ x y) (version_loop fuel a b) in
    if is_digit x && is_digit y then by_runs else by_bytes
version_loop (suc fuel) a b = compare_ℕ (length a) (length b)

unfoldable pub version_cmp : Bytes → Bytes → Order
version_cmp a b = version_loop (length a + length b) a b

abbrev pub is_greater : Order → Bool
is_greater greater = true
is_greater less = false
is_greater equal = false
