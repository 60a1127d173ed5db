-- ===== src/Wlproxy/Policy.antt =====
-- compositor/wlproxy/src/policy.rs: what a zone's client may bind, and how its titles and app ids
-- carry the zone's name. A `String` is its bytes, and a text that is walked by its characters is
-- the list of their code points.
pub mod Binds
pub mod Names
mod Tests
use kryptik_os.Common.{
  ℕ, zero, suc, ◌+◌, ◌-◌, ◌*◌, ◌/◌, ◌%◌, ◌^◌, Bool, true, false, not, ◌&&◌, ◌||◌, List, [], ◌∷◌,
  ◌++◌, map, Option, none, some, ltb, leb, ◌==◌, if◌then◌else◌, length, take, get_or, Bytes, ascii,
  eq_bytes,
}

-- `ALLOWED`
abbrev pub allowed : List (Bytes × ℕ)
allowed =
    (ascii "wl_compositor", 6)
    ∷ (ascii "wl_subcompositor", 1)
    ∷ (ascii "wl_shm", 2)
    ∷ (ascii "wl_seat", 9)
    ∷ (ascii "wl_output", 4)
    ∷ (ascii "xdg_wm_base", 6)
    ∷ (ascii "zxdg_decoration_manager_v1", 1)
    ∷ (ascii "wp_viewporter", 1)
    ∷ (ascii "wp_cursor_shape_manager_v1", 1)
    ∷ (ascii "wp_fractional_scale_manager_v1", 1)
    ∷ []

-- `HOLD_AWAKE`
abbrev pub hold_awake_global : Bytes × ℕ
hold_awake_global = (ascii "zwp_idle_inhibit_manager_v1", 1)

-- The version of the first pair of a name.
abbrev pub version_in : List (Bytes × ℕ) → Bytes → Option ℕ
version_in [] interface = none
version_in ((n, v) ∷ more) interface =
    if eq_bytes n interface then some v else version_in more interface

abbrev pub bindable : Bool → List (Bytes × ℕ)
bindable hold_awake = allowed ++ (if hold_awake then hold_awake_global ∷ [] else [])

unfoldable pub allowed_version : Bytes → Bool → Option ℕ
allowed_version interface hold_awake = version_in (bindable hold_awake) interface

-- `SERVED`
abbrev pub served_names : List Bytes
served_names =
    ascii "wl_data_device_manager"
    ∷ ascii "wl_data_source"
    ∷ ascii "wl_data_device"
    ∷ ascii "wl_data_offer"
    ∷ []

abbrev pub has_name : List Bytes → Bytes → Bool
has_name [] name = false
has_name (n ∷ ns) name = eq_bytes n name || has_name ns name

unfoldable pub served : Bytes → Bool
served interface = has_name served_names interface

-- `OWN_GLOBALS`
abbrev pub own_globals : List (Bytes × ℕ)
own_globals = (ascii "wl_data_device_manager", 3) ∷ []

unfoldable pub own_version : Bytes → Option ℕ
own_version interface = version_in own_globals interface

abbrev pub max_title_bytes : ℕ
max_title_bytes = 256

-- `str::is_char_boundary`: the end, or a byte that continues no character.
abbrev pub is_char_boundary : Bytes → ℕ → Bool
is_char_boundary s i =
    i == length s || ltb i (length s) && not (leb 128 (get_or s i 0) && ltb (get_or s i 0) 192)

-- The loop of `bound_utf8`.
unfoldable pub cut_back : Bytes → ℕ → ℕ
cut_back s zero = 0
cut_back s (suc cut) = if is_char_boundary s (suc cut) then suc cut else cut_back s cut

unfoldable pub bound_utf8 : Bytes → ℕ → Bytes
bound_utf8 s max = if leb (length s) max then s else take (cut_back s (max - 3)) s ++ ascii "..."

-- The control characters, and the marks that change a line's direction or end it.
abbrev pub is_unsafe : ℕ → Bool
is_unsafe c =
    ltb c 32
    || (leb 127 c && leb c 159
        || (c == 0x061c
            || (c == 0x200e
                || (c == 0x200f
                    || (leb 0x2028 c && leb c 0x202e || leb 0x2066 c && leb c 0x2069)))))

abbrev pub clean : ℕ → ℕ
clean c = if is_unsafe c then b' ' else c

-- `char::encode_utf8`
abbrev pub encode_char : ℕ → Bytes
encode_char c =
    if ltb c 0x80
    then c ∷ []
    else if ltb c 0x800
    then (192 + c / 64) ∷ (128 + c % 64) ∷ []
    else if ltb c 0x10000
    then (224 + c / 4096) ∷ (128 + c / 64 % 64) ∷ (128 + c % 64) ∷ []
    else (240 + c / 262144) ∷ (128 + c / 4096 % 64) ∷ (128 + c / 64 % 64) ∷ (128 + c % 64) ∷ []

abbrev pub encode_chars : List ℕ → Bytes
encode_chars [] = []
encode_chars (c ∷ cs) = encode_char c ++ encode_chars cs

-- `[zone] `
abbrev pub title_prefix : Bytes → Bytes
title_prefix zone = b'[' ∷ (zone ++ (b']' ∷ b' ' ∷ []))

unfoldable pub title_for : Bytes → List ℕ → Bytes
title_for zone title =
    bound_utf8 (title_prefix zone ++ encode_chars (map clean title)) max_title_bytes

abbrev pub is_ascii_alphanumeric : ℕ → Bool
is_ascii_alphanumeric c =
    leb b'0' c && leb c b'9' || (leb b'A' c && leb c b'Z' || leb b'a' c && leb c b'z')

abbrev pub clean_id : ℕ → ℕ
clean_id c = if is_ascii_alphanumeric c || (c == b'-' || c == b'_') then c else b'_'

abbrev pub or_app : Bytes → Bytes
or_app [] = ascii "app"
or_app (c ∷ cs) = c ∷ cs

unfoldable pub app_id_for : Bytes → List ℕ → Bytes
app_id_for zone claimed =
    ascii "kryptik." ++ (zone ++ b'.' ∷ or_app (map clean_id (take 64 claimed)))

-- `OWN_GLOBAL_BASE`
abbrev pub own_global_base : ℕ
own_global_base = 0xffffff00

-- `MOVE_TYPES`: what a gesture carries, the first argument of a clipboard's `take_request`.
abbrev pub move_types : List Bytes
move_types =
    ascii "text/plain;charset=utf-8"
    ∷ ascii "text/plain"
    ∷ ascii "text/html"
    ∷ ascii "text/uri-list"
    ∷ ascii "image/png"
    ∷ ascii "image/jpeg"
    ∷ ascii "application/octet-stream"
    ∷ []
