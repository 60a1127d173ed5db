-- ===== src/Wlproxy/Policy/Names.antt =====
-- Titles and app ids: the zone's name stands in front, whatever the client claims.
use kryptik_os.Common.{
  ℕ, zero, suc, ◌+◌, ◌-◌, ◌≤◌, ◌≡◌, refl, sym, ap, ◌∙◌, arith, true, not, ◌&&◌, List, [], ◌∷◌, ◌++◌,
  map, ltb, leb, leb→le, ◌==◌, length, take, get_or, Bytes, ascii, inl, inr, Bool-cases,
  length-append, length-take, take-append,
}
use kryptik_os.Wlproxy.Policy.{
  max_title_bytes, is_char_boundary, cut_back, bound_utf8, clean, encode_char, encode_chars,
  title_prefix, title_for, clean_id, or_app, app_id_for,
}

cut_back-le : (s : Bytes) (cut : ℕ) → cut_back s cut ≤ cut
unfolding cut_back
cut_back-le s zero = omega arith
cut_back-le s (suc cut) = elim (Bool-cases (is_char_boundary s (suc cut))) [
  | inl hit ↦ rw hit (omega arith)
  | inr miss ↦ rw miss (omega (arith, cut_back-le s cut))
]

cut_back-ge : (s : Bytes) (n cut : ℕ) → is_char_boundary s n ≡ true → n ≤ cut → n ≤ cut_back s cut
unfolding cut_back
cut_back-ge s n zero h le = le
cut_back-ge s n (suc cut) h le = elim (Bool-cases (is_char_boundary s (suc cut))) [
  | inl hit ↦ rw hit le
  | inr miss ↦ elim (Bool-cases (n == suc cut)) [
    | inl same ↦
        let e : n ≡ suc cut = ground (arith, same) in
        absurd (ground (arith, sym h ∙ ap (is_char_boundary s) e ∙ miss))
    | inr other ↦ rw miss (cut_back-ge s n cut h (ground (arith, other, le)))
  ]
]

take-take_append :
    (n cut : ℕ) (s more : Bytes) → n ≤ cut → cut ≤ length s → take n (take cut s ++ more) ≡ take n s
take-take_append zero cut s more h k = refl
take-take_append (suc n) zero s more h k = absurd (omega (arith, h))
take-take_append (suc n) (suc cut) [] more h k = absurd (omega (arith, k))
take-take_append (suc n) (suc cut) (x ∷ s) more h k =
    ap (◌∷◌ x) (take-take_append n cut s more (omega (arith, h)) (omega (arith, k)))

get_or-append : (xs ys : Bytes) (d : ℕ) → get_or (xs ++ ys) (length xs) d ≡ get_or ys 0 d
get_or-append [] ys d = refl
get_or-append (x ∷ xs) ys d = get_or-append xs ys d

-- The first byte of a character begins one.
leads :
    (c : ℕ) (rest : Bytes)
    → not (
        leb 128 (get_or (encode_char c ++ rest) 0 0)
        && ltb (get_or (encode_char c ++ rest) 0 0) 192)
      ≡ true
leads c rest = ground arith

boundary : (p : Bytes) (cs : List ℕ) → is_char_boundary (p ++ encode_chars cs) (length p) ≡ true
boundary p [] = ground (arith, length-append p [])
boundary p (c ∷ cs) = ground (
  arith,
  get_or-append p (encode_chars (c ∷ cs)) 0,
  leads c (encode_chars cs),
  length-append p (encode_chars (c ∷ cs)),
)

-- A text that is cut keeps what stands before a boundary within the bound.
bound_utf8-take :
    (p more : Bytes) (max : ℕ)
    → is_char_boundary (p ++ more) (length p) ≡ true
    → length p + 3 ≤ max
    → (take (length p) (bound_utf8 (p ++ more) max) ≡ p)
      × (length (bound_utf8 (p ++ more) max) ≤ max)
unfolding bound_utf8
bound_utf8-take p more max at room =
    let s = p ++ more in
    let cut = cut_back s (max - 3) in
    let low = cut_back-ge s (length p) (max - 3) at (omega (arith, room)) in
    let high = cut_back-le s (max - 3) in
    elim (Bool-cases (leb (length s) max)) [
      | inl fits ↦ rw fits (take-append p more, leb→le (length s) max fits)
      | inr long ↦
          let inside : cut ≤ length s = ground (arith, high, long) in
          rw long (
            take-take_append (length p) cut s (ascii "...") low inside ∙ take-append p more,
            omega (
              arith,
              length-append (take cut s) (ascii "..."),
              length-take cut s inside,
              high,
              room,
            ),
          )
    ]

-- A title stays within its bound, and begins with the name of its zone in brackets, whatever the
-- client calls its window, for a zone's name of at most 250 bytes.
pub title_for-take :
    (zone : Bytes) (title : List ℕ)
    → length zone ≤ 250
    → (take (length (title_prefix zone)) (title_for zone title) ≡ title_prefix zone)
      × (length (title_for zone title) ≤ max_title_bytes)
unfolding title_for
title_for-take zone title h =
    bound_utf8-take (title_prefix zone) (encode_chars (map clean title)) max_title_bytes
      (boundary (title_prefix zone) (map clean title))
      (omega (arith, h, length-append zone (b']' ∷ b' ' ∷ [])))

-- A name with no dot in it.
abbrev pub NoDot : Bytes → Type 0
NoDot [] = Unit
NoDot (c ∷ cs) = ¬ (c ≡ b'.') × NoDot cs

up_to_dot :
    (x y a b : Bytes) → NoDot x → NoDot y → x ++ b'.' ∷ a ≡ y ++ b'.' ∷ b → (x ≡ y) × (a ≡ b)
up_to_dot [] [] a b h k e = (refl, cc)
up_to_dot [] (c ∷ y) a b h k e = absurd (k.0 cc)
up_to_dot (c ∷ x) [] a b h k e = absurd (h.0 cc)
up_to_dot (c ∷ x) (d ∷ y) a b h k e = let (same, rest) = up_to_dot x y a b h.1 k.1 cc in (cc, rest)

-- The app ids of two zones differ, whatever their clients claim, if no zone's name has a dot.
pub app_id_for-zone :
    (zone other : Bytes) (claimed claimed' : List ℕ)
    → NoDot zone
    → NoDot other
    → app_id_for zone claimed ≡ app_id_for other claimed'
    → zone ≡ other
unfolding app_id_for
app_id_for-zone zone other claimed claimed' h k e =
    let a = or_app (map clean_id (take 64 claimed)) in
    let b = or_app (map clean_id (take 64 claimed')) in
    let tails : zone ++ b'.' ∷ a ≡ other ++ b'.' ∷ b = cc in (up_to_dot zone other a b h k tails).0
