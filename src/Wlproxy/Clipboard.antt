-- ===== src/Wlproxy/Clipboard.antt =====
-- compositor/wlproxy/src/clipboard.rs: a zone's selection, shared by its sessions. The bytes of a
-- selection stand for themselves; a descriptor is the number it has.
pub mod Forgotten
pub mod Generations
use kryptik_os.Common.{
  ◌||◌, ℕ, ◌+◌, Bool, true, false, not, ◌&&◌, List, [], ◌∷◌, ◌++◌, Option, none, some, ◌==◌,
  if◌then◌else◌, eq_bytes, Bytes,
}

-- `OWN`: the owner of a selection that the proxy holds itself.
abbrev pub own : ℕ
own = 0

pub record Selection : Type 0 where
  pub owner : ℕ
  pub source : ℕ
  pub mimes : List Bytes
  pub data_bytes : Option Bytes

pub data Action : Type 0 where
  offer : ℕ → Action
  cancel : ℕ → ℕ → Action
  send : ℕ → ℕ → Bytes → ℕ → Action

-- `Action::session`
abbrev pub session_of : Action → ℕ
session_of (offer s) = s
session_of (cancel s source) = s
session_of (send s source mime fd) = s

pub record Clipboard : Type 0 where
  pub focus : Option ℕ
  pub selection : Option Selection
  pub generation : ℕ
  pub actions : List Action

-- `Clipboard::default`
abbrev pub empty_clipboard : Clipboard
empty_clipboard = record { focus = none; selection = none; generation = 0; actions = [] }

-- What `changed` pushes.
abbrev pub offers : Option ℕ → List Action
offers none = []
offers (some f) = offer f ∷ []

unfoldable pub changed : Clipboard → Clipboard
changed c = record {
  focus = c.focus;
  selection = c.selection;
  generation = c.generation + 1;
  actions = c.actions ++ offers c.focus;
}

-- `is_some_and(|s| s.owner == owner && s.source == source)`
abbrev pub is_source : ℕ → ℕ → Option Selection → Bool
is_source owner source none = false
is_source owner source (some s) = s.owner == owner && s.source == source

-- What `set` pushes for the selection it takes.
abbrev pub cancels : Option Selection → Option Selection → List Action
cancels none sel = []
cancels (some old) sel =
    if not (old.owner == own) && not (is_source old.owner old.source sel)
    then cancel old.owner old.source ∷ []
    else []

unfoldable pub set_selection : Option Selection → Clipboard → Clipboard
set_selection sel c = changed (record {
  focus = c.focus;
  selection = sel;
  generation = c.generation;
  actions = c.actions ++ cancels c.selection sel;
})

unfoldable pub source_gone : ℕ → ℕ → Clipboard → Clipboard
source_gone owner source c =
    if is_source owner source c.selection
    then changed (record {
      focus = c.focus;
      selection = none;
      generation = c.generation;
      actions = c.actions;
    })
    else c

-- `actions.retain(|a| a.session() != id)`
abbrev pub retain_others : ℕ → List Action → List Action
retain_others id [] = []
retain_others id (a ∷ more) =
    if session_of a == id then retain_others id more else a ∷ retain_others id more

abbrev pub focus_without : ℕ → Option ℕ → Option ℕ
focus_without id none = none
focus_without id (some f) = if f == id then none else some f

abbrev pub is_owner : ℕ → Option Selection → Bool
is_owner id none = false
is_owner id (some s) = s.owner == id

unfoldable pub session_gone : ℕ → Clipboard → Clipboard
session_gone id c =
    let actions = retain_others id c.actions in
    let focus = focus_without id c.focus in
    if is_owner id c.selection
    then changed
        (record { focus = focus; selection = none; generation = c.generation; actions = actions })
    else record {
      focus = focus;
      selection = c.selection;
      generation = c.generation;
      actions = actions;
    }

-- `mimes.iter().any(|t| t == mime)`
abbrev pub offers_mime : Bytes → List Bytes → Bool
offers_mime mime [] = false
offers_mime mime (t ∷ ts) = eq_bytes t mime || offers_mime mime ts

abbrev pub has_focus : ℕ → Option ℕ → Bool
has_focus id none = false
has_focus id (some f) = f == id

-- `self.offers.get(&object) == Some(&clip.generation)`
abbrev pub is_current : ℕ → Option ℕ → Bool
is_current generation none = false
is_current generation (some g) = g == generation

-- The clipboard's part of a session's handlers (session.rs): `wl_keyboard.enter` and `leave`.
unfoldable pub keyboard_enter : ℕ → Clipboard → Clipboard
keyboard_enter id c = record {
  focus = some id;
  selection = c.selection;
  generation = c.generation;
  actions = c.actions;
}

unfoldable pub keyboard_leave : ℕ → Clipboard → Clipboard
keyboard_leave id c =
    if has_focus id c.focus
    then record {
      focus = none;
      selection = c.selection;
      generation = c.generation;
      actions = c.actions;
    }
    else c

-- The selection of a copy, none for the source 0.
abbrev pub copied_selection : ℕ → ℕ → List Bytes → Option Selection
copied_selection id source mimes =
    if source == 0
    then none
    else some (record { owner = id; source = source; mimes = mimes; data_bytes = none })

-- `wl_data_device.set_selection`: a source of the session's with its types, or 0.
unfoldable pub copy : ℕ → ℕ → List Bytes → Clipboard → Clipboard
copy id source mimes c =
    if has_focus id c.focus then set_selection (copied_selection id source mimes) c else c

abbrev pub push_actions : List Action → Clipboard → Clipboard
push_actions more c = record {
  focus = c.focus;
  selection = c.selection;
  generation = c.generation;
  actions = c.actions ++ more;
}

-- What `wl_data_offer.receive` pushes, by whether the offer is of the current generation.
abbrev pub pasted : Bool → Bytes → Option Selection → Option ℕ → List Action
pasted current mime (some sel) (some fd) =
    if current && offers_mime mime sel.mimes then send sel.owner sel.source mime fd ∷ [] else []
pasted current mime _ _ = []

-- `wl_data_offer.receive`, by the generation the offer was made for and the descriptor.
unfoldable pub receive : Option ℕ → Bytes → Option ℕ → Clipboard → Clipboard
receive offered mime fd c =
    push_actions (pasted (is_current c.generation offered) mime c.selection fd) c

-- The actions taken by the main loop (main.rs).
unfoldable pub take_actions : Clipboard → Clipboard
take_actions c = record {
  focus = c.focus;
  selection = c.selection;
  generation = c.generation;
  actions = [];
}

-- `MOVE_TYPES.iter().find(|t| sel.mimes.iter().any(|m| m == *t))`
abbrev pub first_offered : List Bytes → List Bytes → Option Bytes
first_offered [] mimes = none
first_offered (t ∷ ts) mimes = if offers_mime t mimes then some t else first_offered ts mimes

-- What `Request::Take` of the control socket pushes (control.rs): the owner is asked for the first
-- type it offers of those the gesture carries. Bytes the proxy holds itself need no owner, and
-- without a pipe, its writing end, nothing is asked.
abbrev pub asked_of : Selection → Option Bytes → Option Bytes → Option ℕ → List Action
asked_of sel (some mime) none (some fd) = send sel.owner sel.source mime fd ∷ []
asked_of sel _ _ _ = []

abbrev pub requested : List Bytes → Option ℕ → Option Selection → List Action
requested types pipe none = []
requested types pipe (some sel) = asked_of sel (first_offered types sel.mimes) sel.data_bytes pipe

unfoldable pub take_request : List Bytes → Option ℕ → Clipboard → Clipboard
take_request types pipe c = push_actions (requested types pipe c.selection) c

-- `Request::Give`: the proxy holds the bytes itself.
abbrev pub brought : Bytes → Bytes → Selection
brought mime content = record {
  owner = own;
  source = 0;
  mimes = mime ∷ [];
  data_bytes = some content;
}

-- `Request::Clear`, by the generation that was taken.
unfoldable pub clear_request : ℕ → Clipboard → Clipboard
clear_request g c = if g == c.generation then set_selection none c else c

-- What happens to a clipboard.
pub data Event : Type 0 where
  entered left ended : ℕ → Event
  copied : ℕ → ℕ → List Bytes → Event
  destroyed : ℕ → ℕ → Event
  received : Option ℕ → Bytes → Option ℕ → Event
  asked : List Bytes → Option ℕ → Event
  given : Bytes → Bytes → Event
  cleared : ℕ → Event
  taken : Event

unfoldable pub apply : Event → Clipboard → Clipboard
apply (entered id) c = keyboard_enter id c
apply (left id) c = keyboard_leave id c
apply (ended id) c = session_gone id c
apply (copied id source mimes) c = copy id source mimes c
apply (destroyed id source) c = source_gone id source c
apply (received offered mime fd) c = receive offered mime fd c
apply (asked types pipe) c = take_request types pipe c
apply (given mime content) c = set_selection (some (brought mime content)) c
apply (cleared g) c = clear_request g c
apply taken c = take_actions c

abbrev pub apply_all : List Event → Clipboard → Clipboard
apply_all [] c = c
apply_all (e ∷ es) c = apply_all es (apply e c)
