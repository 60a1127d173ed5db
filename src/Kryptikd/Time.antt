-- ===== src/Kryptikd/Time.antt =====
-- compartments/kryptikd/src/time.rs: dates. What decides on corrections of the clock is floating
-- point, and is not modelled.
use kryptik_os.Common.{
  ℕ, ◌+◌, ◌*◌, not, ◌&&◌, ◌||◌, Option, none, some, and_then, leb, ltb, ◌==◌, if◌then◌else◌, length,
  take, drop, get_or, Bytes, is_digit, all_chars, parse_unsigned, ℤ, pos, ◌+ℤ◌, ◌-ℤ◌, ◌*ℤ◌, ◌/ℤ◌,
  leb_ℤ,
}

-- `days_from_civil`
unfoldable pub days_from_civil : ℤ → ℤ → ℤ → ℤ
days_from_civil year m d =
    let y = if leb_ℤ m (pos 2) then year -ℤ pos 1 else year in
    let era = (if leb_ℤ (pos 0) y then y else y -ℤ pos 399) /ℤ 400 in
    let yoe = y -ℤ era *ℤ pos 400 in
    let month = if leb_ℤ m (pos 2) then m +ℤ pos 9 else m -ℤ pos 3 in
    let doy = (pos 153 *ℤ month +ℤ pos 2) /ℤ 5 +ℤ d -ℤ pos 1 in
    let doe = yoe *ℤ pos 365 +ℤ yoe /ℤ 4 -ℤ yoe /ℤ 100 +ℤ doy in
    era *ℤ pos 146097 +ℤ doe -ℤ pos 719468

-- The digits from one place to another.
abbrev pub num : Bytes → ℕ → ℕ → Option ℕ
num s from count =
    let t = take count (drop from s) in
    if length t == count && all_chars is_digit t then parse_unsigned 0x8000000000000000 t else none

abbrev pub char_at : Bytes → ℕ → ℕ
char_at s i = get_or s i 0

-- The offset from UTC: its seconds, negative or not.
unfoldable pub zone_offset : Bytes → Option ℤ
zone_offset s =
    let z = drop 19 s in
    let sign = char_at z 0 in
    let hours = num s 20 2 in
    let minutes = num s 23 2 in
    if length z == 1 && sign == b'Z'
    then some (pos 0)
    else if length z == 6 && (sign == b'+' || sign == b'-') && char_at z 3 == b':'
    then and_then hours (λ zh. and_then minutes (λ zm.
      if ltb 23 zh || ltb 59 zm
      then none
      else let secs = pos (zh * 3600 + zm * 60) in
        some (if sign == b'-' then pos 0 -ℤ secs else secs)))
    else none

-- `parse_iso8601`
unfoldable pub parse_iso8601 : Bytes → Option ℤ
parse_iso8601 s =
    let shaped =
      not (ltb (length s) 20)
      && char_at s 4 == b'-'
      && char_at s 7 == b'-'
      && char_at s 10 == b'T'
      && char_at s 13 == b':'
      && char_at s 16 == b':' in
    if not shaped
    then none
    else and_then (num s 0 4) (λ y. and_then (num s 5 2) (λ mo. and_then (num s 8 2) (λ d.
      and_then (num s 11 2) (λ h. and_then (num s 14 2) (λ mi. and_then (num s 17 2) (λ se.
        if not (leb 1 mo && leb mo 12)
          || not (leb 1 d && leb d 31)
          || ltb 23 h
          || ltb 59 mi
          || ltb 60 se
        then none
        else and_then (zone_offset s) (λ zone. some (
            days_from_civil (pos y) (pos mo) (pos d) *ℤ pos 86400
            +ℤ pos (h * 3600)
            +ℤ pos (mi * 60)
            +ℤ pos se
            -ℤ zone))))))))
