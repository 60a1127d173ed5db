-- ===== src/Common/Texts.antt =====
-- Texts of the program as lists of bytes.
use Prim.Native.Char.{code}
use Prim.Native.String.{String}
use Prim.Native.Nat.{ℕ, ◌+◌, ◌-◌, ◌*◌}
use mathlib.Core.Bool.{Bool, true, false, ◌&&◌, ◌||◌}
use mathlib.Core.List.{List, [], ◌∷◌, ◌++◌}
use mathlib.Core.Option.{Option, none, some}
use mathlib.Core.Path.{◌≡◌, refl}
use native.Mathlib.Omega.{arith}
use kryptik_os.Common.Booleans.{both, ==_iff, ◌==◌, leb, if◌then◌else◌}

-- The bytes of a literal, which is ASCII throughout.
abbrev pub ascii : String → List ℕ
ascii String.[] = []
ascii (String.◌∷◌ letter more) = code letter ∷ ascii more

abbrev pub eq_bytes : List ℕ → List ℕ → Bool
eq_bytes [] [] = true
eq_bytes (a ∷ x) (b ∷ y) = a == b && eq_bytes x y
eq_bytes _ _ = false

-- `char::is_whitespace`: the characters of Unicode's White_Space.
abbrev pub is_whitespace : ℕ → Bool
is_whitespace c =
    leb 9 c && leb c 13
    || (c == 32
        || (c == 0x85
            || (c == 0xa0
                || (c == 0x1680
                    || (leb 0x2000 c && leb c 0x200a
                        || (c == 0x2028
                            || (c == 0x2029 || (c == 0x202f || (c == 0x205f || c == 0x3000)))))))))

abbrev pub is_digit : ℕ → Bool
is_digit c = leb b'0' c && leb c b'9'

-- `str::is_empty`
abbrev pub is_blank : List ℕ → Bool
is_blank [] = true
is_blank (c ∷ cs) = false

unfoldable pub trim_start : List ℕ → List ℕ
trim_start [] = []
trim_start (c ∷ cs) = if is_whitespace c then trim_start cs else c ∷ cs

unfoldable pub trim_end : List ℕ → List ℕ
trim_end [] = []
trim_end (c ∷ cs) =
    let rest = trim_end cs in if is_blank rest && is_whitespace c then [] else c ∷ rest

abbrev pub trim : List ℕ → List ℕ
trim s = trim_end (trim_start s)

-- A word that has ended, unless it is empty.
abbrev pub flush : List ℕ → List (List ℕ)
flush [] = []
flush (c ∷ cs) = (c ∷ cs) ∷ []

-- `str::split_whitespace`, with the word so far.
unfoldable pub words_from : List ℕ → List ℕ → List (List ℕ)
words_from word [] = flush word
words_from word (c ∷ cs) =
    if is_whitespace c then flush word ++ words_from [] cs else words_from (word ++ c ∷ []) cs

abbrev pub split_whitespace : List ℕ → List (List ℕ)
split_whitespace s = words_from [] s

-- A carriage return before a line feed ends the line with it.
unfoldable pub strip_cr : List ℕ → List ℕ
strip_cr [] = []
strip_cr (c ∷ []) = if c == 13 then [] else c ∷ []
strip_cr (c ∷ d ∷ cs) = c ∷ strip_cr (d ∷ cs)

-- `str::lines`, with the line so far.
unfoldable pub lines_from : List ℕ → List ℕ → List (List ℕ)
lines_from line [] = flush line
lines_from line (c ∷ cs) =
    if c == 10 then strip_cr line ∷ lines_from [] cs else lines_from (line ++ c ∷ []) cs

abbrev pub text_lines : List ℕ → List (List ℕ)
text_lines s = lines_from [] s

abbrev pub cons_first : ℕ → Option (List ℕ × List ℕ) → Option (List ℕ × List ℕ)
cons_first c none = none
cons_first c (some (a, b)) = some (c ∷ a, b)

-- `str::split_once` on a character.
unfoldable pub split_once : ℕ → List ℕ → Option (List ℕ × List ℕ)
split_once d [] = none
split_once d (c ∷ cs) = if c == d then some ([], cs) else cons_first c (split_once d cs)

-- What stands before the first of a character, or all.
unfoldable pub before : ℕ → List ℕ → List ℕ
before d [] = []
before d (c ∷ cs) = if c == d then [] else c ∷ before d cs

-- `str::strip_prefix`
unfoldable pub strip_prefix : List ℕ → List ℕ → Option (List ℕ)
strip_prefix [] s = some s
strip_prefix (p ∷ ps) [] = none
strip_prefix (p ∷ ps) (c ∷ cs) = if p == c then strip_prefix ps cs else none

abbrev pub starts_with : List ℕ → List ℕ → Bool
starts_with p s = elim (strip_prefix p s) [ none ↦ false | some rest ↦ true ]

-- `str::contains` of a character, and of a text.
unfoldable pub has_char : ℕ → List ℕ → Bool
has_char d [] = false
has_char d (c ∷ cs) = c == d || has_char d cs

unfoldable pub all_chars : (ℕ → Bool) → List ℕ → Bool
all_chars p [] = true
all_chars p (c ∷ cs) = p c && all_chars p cs

-- The digits of a number, none where one is no digit or the number passes its bound.
unfoldable pub digits_from : ℕ → ℕ → List ℕ → Option ℕ
digits_from bound n [] = some n
digits_from bound n (c ∷ cs) =
    let m = n * 10 + (c - b'0') in
    let rest = digits_from bound m cs in if is_digit c && leb m bound then rest else none

-- `str::parse` of an unsigned integer: digits, with one + before them if any.
unfoldable pub parse_unsigned : ℕ → List ℕ → Option ℕ
parse_unsigned bound [] = none
parse_unsigned bound (c ∷ []) = digits_from bound 0 (c ∷ [])
parse_unsigned bound (c ∷ d ∷ cs) =
    if c == b'+' then digits_from bound 0 (d ∷ cs) else digits_from bound 0 (c ∷ d ∷ cs)

-- Membership of a text in a list.
abbrev pub has_text : List (List ℕ) → List ℕ → Bool
has_text [] x = false
has_text (t ∷ ts) x = eq_bytes t x || has_text ts x

pub eq_bytes-eq : (a b : List ℕ) → eq_bytes a b ≡ true → a ≡ b
eq_bytes-eq [] [] h = refl
eq_bytes-eq [] (y ∷ ys) h = cc
eq_bytes-eq (x ∷ xs) [] h = cc
eq_bytes-eq (x ∷ xs) (y ∷ ys) h =
    let (here, more) = both (x == y) (eq_bytes xs ys) h in
    let head : x ≡ y = (==_iff x y).0 here in
    let tail : xs ≡ ys = eq_bytes-eq xs ys more in rw (head, tail) refl

pub eq_bytes_refl : (a : List ℕ) → eq_bytes a a ≡ true
eq_bytes_refl [] = refl
eq_bytes_refl (x ∷ xs) = ground (arith, eq_bytes_refl xs)
