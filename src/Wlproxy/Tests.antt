-- ===== src/Wlproxy/Tests.antt =====
-- The theorems at concrete messages, objects and clipboards.
use kryptik_os.Common.{
  ℕ, ◌<◌, ◌≤◌, ◌≡◌, ◌⊎◌, refl, arith, List, [], ◌∷◌, ◌++◌, none, some, ok, err, length, drop, take,
  Bytes, IsBytes, usize_mod, to_ne_bytes, if◌then◌else◌, ◌==◌,
}
use kryptik_os.Wlproxy.Wire.{
  header_len, max_message_len, server_id_base, arg_overrun, Header, parse, encode, ArgReader,
  new_reader, string, advance, is_utf8, utf8_from, utf8_step, utf8_lead, contains,
}
use kryptik_os.Wlproxy.Wire.Writer.{MessageWriter, finish}
use kryptik_os.Wlproxy.Wire.Headers.{IsHeader, parse-encode, parse-IsHeader}
use kryptik_os.Wlproxy.Wire.Messages.{parse-finish}
use kryptik_os.Wlproxy.Wire.Reader.{Reads}
use kryptik_os.Wlproxy.Wire.Texts.{IsText, string_wire, string-string_wire}
use kryptik_os.Wlproxy.Wire.Bounds.{Moves, Sound, string-Moves}
use kryptik_os.Wlproxy.Protocol.{uint, new_id, Message, nothing, decode}
use kryptik_os.Wlproxy.Protocol.Encoding.{
  Value, word, bind, FitAll, wires, noted_all, decode-wires, decode_trailing,
}
use kryptik_os.Wlproxy.Protocol.Sound.{IsSound, decode-IsSound}
use kryptik_os.Wlproxy.Objects.{
  insert_slot, Obj, Objects, get, insert, remove, free_server_id, first_free,
}
use kryptik_os.Wlproxy.Objects.Lookup.{
  refusal, verdict, get-insert, get-remove, insert-refusal, free_server_id-accepted,
}
use kryptik_os.Wlproxy.Objects.Invariant.{IsBounded, insert-IsBounded, remove-IsBounded}
use kryptik_os.Wlproxy.Clipboard.{
  own, Selection, Action, Clipboard, empty_clipboard, Event, entered, copied, apply, apply_all,
  session_gone, receive, copy, set_selection, changed,
}
use kryptik_os.Wlproxy.Clipboard.Forgotten.{IsForgotten, session_gone-stays-IsForgotten}
use kryptik_os.Wlproxy.Clipboard.Generations.{Asks, receive-apply_all, apply-selection}

-- `wl_registry.bind` of "wl" at version 1 as object 3.
abbrev wl_name : Bytes
wl_name = 119 ∷ 108 ∷ []

abbrev bind_message : Message
bind_message = record { name = 98 ∷ []; args = uint ∷ new_id none ∷ []; fds = 0; since = 1 }

abbrev bind_values : List Value
bind_values = word 7 ∷ bind wl_name 1 3 ∷ []

wl_name-IsText : IsText wl_name
unfolding is_utf8 utf8_from utf8_step utf8_lead contains
wl_name-IsText = record { utf8 = refl; no_nul = refl; short = omega arith }

bind_values-FitAll : FitAll bind_message.args bind_values
bind_values-FitAll = (omega arith, ((wl_name-IsText, omega arith, omega arith), tt))

bind_values-short : length (wires bind_values) < usize_mod
unfolding to_ne_bytes
bind_values-short = omega arith

decode-wires_example :
    decode bind_message (wires bind_values) ≡ ok (noted_all 0 bind_message.args bind_values nothing)
decode-wires_example =
    decode-wires bind_message bind_values bind_values-FitAll (omega arith) bind_values-short

trailing-short : length (wires bind_values ++ 0 ∷ []) < usize_mod
unfolding to_ne_bytes
trailing-short = omega arith

decode_trailing_example : decode bind_message (wires bind_values ++ 0 ∷ []) ≡ err arg_overrun
decode_trailing_example =
    decode_trailing bind_message bind_values 0 [] bind_values-FitAll (omega arith) trailing-short

bind-decoded :
    decode bind_message (wires bind_values) ≡ ok (noted_all 0 bind_message.args bind_values nothing)
bind-decoded =
    decode-wires bind_message bind_values bind_values-FitAll (omega arith) bind_values-short

decode-IsSound_example : IsSound bind_message (noted_all 0 bind_message.args bind_values nothing)
decode-IsSound_example =
    decode-IsSound bind_message (wires bind_values)
      (noted_all 0 bind_message.args bind_values nothing) bind-decoded

abbrev sync_header : Header
sync_header = record { object = 1; opcode = 0; size = 12 }

sync_header-IsHeader : IsHeader sync_header
sync_header-IsHeader = record {
  object_fits = omega arith;
  opcode_fits = omega arith;
  holds_header = omega arith;
  aligned = refl;
  bounded = omega arith;
}

parse-encode_example : parse (encode sync_header ++ 3 ∷ []) ≡ ok sync_header
parse-encode_example = parse-encode sync_header (3 ∷ []) sync_header-IsHeader

abbrev sync_bytes : Bytes
sync_bytes = encode sync_header ++ 3 ∷ []

sync_bytes-IsBytes : IsBytes sync_bytes
unfolding encode to_ne_bytes
sync_bytes-IsBytes = ground arith

sync_bytes-parsed : parse sync_bytes ≡ ok sync_header
sync_bytes-parsed = parse-encode sync_header (3 ∷ []) sync_header-IsHeader

parse-IsHeader_example : IsHeader sync_header × (encode sync_header ≡ take header_len sync_bytes)
parse-IsHeader_example = parse-IsHeader sync_bytes sync_header sync_bytes-IsBytes sync_bytes-parsed

-- A message of a new writer, with one word in its body.
abbrev one_word : MessageWriter
one_word = record { object = 1; opcode = 2; body = 5 ∷ 0 ∷ 0 ∷ 0 ∷ [] }

abbrev one_word_message : Bytes
one_word_message = encode (record { object = 1; opcode = 2; size = 12 }) ++ one_word.body

one_word-finished : finish one_word ≡ some one_word_message
unfolding finish
one_word-finished = refl

parse-finish_example :
    (parse one_word_message
      ≡ ok (record { object = 1; opcode = 2; size = length one_word_message }))
    × (length one_word_message ≤ max_message_len)
    × (drop header_len one_word_message ≡ one_word.body)
parse-finish_example =
    parse-finish one_word one_word_message
      (record { object_fits = omega arith; opcode_fits = omega arith; aligned = refl })
      one_word-finished

-- A reader at the start of a string and one more byte.
abbrev string_reader : ArgReader
string_reader = new_reader (string_wire wl_name ++ 9 ∷ [])

string_reader-Reads : Reads string_reader (string_wire wl_name ++ 9 ∷ [])
unfolding to_ne_bytes
string_reader-Reads = record { inside = omega arith; fits = omega arith; unread = refl }

string-string_wire_example :
    string string_reader ≡ ok (some wl_name, advance (length (string_wire wl_name)) string_reader)
string-string_wire_example =
    string-string_wire {r = string_reader} wl_name (9 ∷ []) wl_name-IsText string_reader-Reads

string_reader-read :
    string string_reader ≡ ok (some wl_name, advance (length (string_wire wl_name)) string_reader)
string_reader-read =
    string-string_wire {r = string_reader} wl_name (9 ∷ []) wl_name-IsText string_reader-Reads

string-Moves_example :
    Moves string_reader (advance (length (string_wire wl_name)) string_reader)
    × Sound (some wl_name)
string-Moves_example =
    string-Moves string_reader (advance (length (string_wire wl_name)) string_reader) (some wl_name)
      string_reader-read

-- The display, and objects behind it.
abbrev display : Obj
display = (record { name = 100 ∷ []; version = 1; requests = []; events = [] }, 1)

abbrev at_first : Objects
at_first = record { client = none ∷ some display ∷ []; server = []; live = 1 }

abbrev with_two : Objects
with_two = record { client = none ∷ some display ∷ some display ∷ []; server = []; live = 2 }

at_first-IsBounded : IsBounded at_first
at_first-IsBounded = omega arith

at_first-inserted : insert at_first 2 display ≡ ok with_two
unfolding insert insert_slot
at_first-inserted = refl

get-insert_example :
    ((j : ℕ) → get with_two j ≡ (if 2 == j then some display else get at_first j))
    × (get at_first 2 ≡ none)
get-insert_example = get-insert at_first with_two 2 display at_first-inserted

get-remove_example : get (remove with_two 2) 1 ≡ (if 2 == 1 then none else get with_two 1)
get-remove_example = get-remove with_two 2 1

insert-refusal_example : verdict (insert with_two 2 display) ≡ refusal with_two 2
insert-refusal_example = insert-refusal with_two 2 display

with_two-free : free_server_id with_two ≡ some server_id_base
unfolding free_server_id first_free
with_two-free = refl

free_server_id-accepted_example :
    (server_id_base ≤ server_id_base)
    × (get with_two server_id_base ≡ none)
    × (verdict (insert with_two server_id_base display) ≡ none)
free_server_id-accepted_example =
    free_server_id-accepted with_two server_id_base display with_two-free (omega arith)

insert-IsBounded_example : IsBounded with_two
insert-IsBounded_example =
    insert-IsBounded at_first with_two 2 display at_first-IsBounded at_first-inserted

remove-IsBounded_example : IsBounded (remove at_first 1)
remove-IsBounded_example = remove-IsBounded at_first 1 at_first-IsBounded

-- Session 1 has the keyboard and copied, then session 2 got the keyboard.
abbrev text_type : List Bytes
text_type = (116 ∷ []) ∷ []

abbrev by_session_1 : Clipboard
by_session_1 = apply_all (entered 1 ∷ copied 1 8 text_type ∷ []) empty_clipboard

abbrev later_events : List Event
later_events = entered 2 ∷ copied 2 9 text_type ∷ []

session_gone-stays-IsForgotten_example :
    IsForgotten 1 (apply_all later_events (session_gone 1 by_session_1))
session_gone-stays-IsForgotten_example =
    session_gone-stays-IsForgotten 1 by_session_1 later_events (omega arith)
      (λ e. absurd (omega arith), (λ e. absurd (omega arith), tt))

receive-apply_all_example :
    (more : List Action) × ((receive
        (some by_session_1.generation)
        (116 ∷ [])
        (some 5)
        (apply_all later_events by_session_1)).actions
      ≡ (apply_all later_events by_session_1).actions ++ more)
    × Asks by_session_1.selection (116 ∷ []) 5 more
receive-apply_all_example = receive-apply_all by_session_1 later_events (116 ∷ []) 5

abbrev copy_of_1 : Selection
copy_of_1 = record { owner = 1; source = 8; mimes = text_type; data_bytes = none }

abbrev keyboard_at_1 : Clipboard
keyboard_at_1 = record { focus = some 1; selection = none; generation = 4; actions = [] }

copied_by_1 : (apply (copied 1 8 text_type) keyboard_at_1).selection ≡ some copy_of_1
unfolding apply copy set_selection changed
copied_by_1 = refl

apply-selection_example :
    (keyboard_at_1.selection ≡ some copy_of_1)
    ⊎ (copy_of_1.owner ≡ own)
    ⊎ (keyboard_at_1.focus ≡ some copy_of_1.owner)
apply-selection_example = apply-selection (copied 1 8 text_type) keyboard_at_1 copy_of_1 copied_by_1
