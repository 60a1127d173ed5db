-- ===== src/Wlproxy/Clipboard/Forgotten.antt =====
-- What is left of a session that ended: nothing, whatever happens to the clipboard later.
use kryptik_os.Common.{
  ℕ, ◌≡◌, ◌≢◌, inl, inr, refl, arith, Bool, false, not, ◌&&◌, List, [], ◌∷◌, ◌++◌, Option, none,
  some, ◌==◌, Bytes, Bool-cases,
}
use kryptik_os.Wlproxy.Clipboard.{
  own, Selection, Action, send, session_of, Clipboard, offers, changed, is_source, cancels,
  set_selection, source_gone, retain_others, focus_without, is_owner, session_gone, has_focus,
  offers_mime, keyboard_enter, keyboard_leave, copy, receive, take_actions, Event, entered, left,
  ended, copied, destroyed, received, asked, given, cleared, take_request, clear_request,
  push_actions, pasted, asked_of, requested, copied_selection, taken, apply, apply_all,
}

-- No action is asked of a session.
abbrev pub AllOthers : ℕ → List Action → Type 0
AllOthers id [] = Unit
AllOthers id (a ∷ more) = (session_of a ≢ id) × AllOthers id more

-- A clipboard that does not know a session.
pub record IsForgotten (id : ℕ) (c : Clipboard) : Type 0 where
  pub no_focus : has_focus id c.focus ≡ false
  pub no_selection : is_owner id c.selection ≡ false
  pub no_actions : AllOthers id c.actions

AllOthers-append :
    (id : ℕ) (xs ys : List Action) → AllOthers id xs → AllOthers id ys → AllOthers id (xs ++ ys)
AllOthers-append id [] ys h k = k
AllOthers-append id (a ∷ xs) ys h k = (h.0, AllOthers-append id xs ys h.1 k)

AllOthers-retain_others : (id : ℕ) (more : List Action) → AllOthers id (retain_others id more)
AllOthers-retain_others id [] = tt
AllOthers-retain_others id (a ∷ more) =
    let ih = AllOthers-retain_others id more in
    elim (Bool-cases (session_of a == id)) [
      | inl hit ↦ rw hit ih
      | inr miss ↦ rw miss (ground (arith, miss), ih)
    ]

AllOthers-retain_more :
    (id other : ℕ) (more : List Action)
    → AllOthers id more
    → AllOthers id (retain_others other more)
AllOthers-retain_more id other [] h = tt
AllOthers-retain_more id other (a ∷ more) h =
    let ih = AllOthers-retain_more id other more h.1 in
    elim (Bool-cases (session_of a == other)) [ inl hit ↦ rw hit ih | inr miss ↦ rw miss (h.0, ih) ]

AllOthers-offers : (id : ℕ) (f : Option ℕ) → has_focus id f ≡ false → AllOthers id (offers f)
AllOthers-offers id none h = tt
AllOthers-offers id (some f) h = (ground (arith, h), tt)

changed-IsForgotten : (id : ℕ) (c : Clipboard) → IsForgotten id c → IsForgotten id (changed c)
unfolding changed
changed-IsForgotten id c h = record {
  no_focus = h.no_focus;
  no_selection = h.no_selection;
  no_actions =
      AllOthers-append id c.actions (offers c.focus) h.no_actions
        (AllOthers-offers id c.focus h.no_focus);
}

focus_without_self : (id : ℕ) (f : Option ℕ) → has_focus id (focus_without id f) ≡ false
focus_without_self id none = refl
focus_without_self id (some f) = ground arith

focus_without-other :
    (id other : ℕ) (f : Option ℕ)
    → has_focus id f ≡ false
    → has_focus id (focus_without other f) ≡ false
focus_without-other id other none h = refl
focus_without-other id other (some f) h = ground (arith, h)

-- Whatever the clipboard holds, a session's end leaves no trace of it.
pub session_gone-IsForgotten : (id : ℕ) (c : Clipboard) → IsForgotten id (session_gone id c)
unfolding session_gone
session_gone-IsForgotten id c =
    let gone = AllOthers-retain_others id c.actions in
    let focus = focus_without_self id c.focus in
    elim (Bool-cases (is_owner id c.selection)) [
      | inl hit ↦ rw hit (
          changed-IsForgotten id _
            (record { no_focus = focus; no_selection = refl; no_actions = gone }))
      | inr miss ↦ rw miss (record { no_focus = focus; no_selection = miss; no_actions = gone })
    ]

-- The session an event is the doing of.
abbrev pub IsBy : ℕ → Event → Type 0
IsBy id (entered s) = s ≡ id
IsBy id (copied s source mimes) = s ≡ id
IsBy id _ = ⊥

abbrev pub NoneBy : ℕ → List Event → Type 0
NoneBy id [] = Unit
NoneBy id (e ∷ es) = ¬ IsBy id e × NoneBy id es

has_focus-other : (s id : ℕ) → s ≢ id → has_focus id (some s) ≡ false
has_focus-other s id h = ground (arith, h)

AllOthers-cancels :
    (id : ℕ) (held sel : Option Selection)
    → is_owner id held ≡ false
    → AllOthers id (cancels held sel)
AllOthers-cancels id none sel h = tt
AllOthers-cancels id (some old) sel h =
    elim (Bool-cases (not (old.owner == own) && not (is_source old.owner old.source sel))) [
      | inl hit ↦ rw hit (ground (arith, h), tt)
      | inr miss ↦ rw miss tt
    ]

set_selection-IsForgotten :
    (id : ℕ) (sel : Option Selection) (c : Clipboard)
    → IsForgotten id c
    → is_owner id sel ≡ false
    → IsForgotten id (set_selection sel c)
unfolding set_selection
set_selection-IsForgotten id sel c h other = changed-IsForgotten id _ (record {
  no_focus = h.no_focus;
  no_selection = other;
  no_actions =
      AllOthers-append id c.actions (cancels c.selection sel) h.no_actions
        (AllOthers-cancels id c.selection sel h.no_selection);
})

source_gone-IsForgotten :
    (id owner source : ℕ) (c : Clipboard)
    → IsForgotten id c
    → IsForgotten id (source_gone owner source c)
unfolding source_gone
source_gone-IsForgotten id owner source c h =
    elim (Bool-cases (is_source owner source c.selection)) [
      | inl hit ↦ rw hit (
          changed-IsForgotten id _
            (record { no_focus = h.no_focus; no_selection = refl; no_actions = h.no_actions }))
      | inr miss ↦ rw miss h
    ]

session_gone-other :
    (id other : ℕ) (c : Clipboard) → IsForgotten id c → IsForgotten id (session_gone other c)
unfolding session_gone
session_gone-other id other c h =
    let actions = AllOthers-retain_more id other c.actions h.no_actions in
    let focus = focus_without-other id other c.focus h.no_focus in
    elim (Bool-cases (is_owner other c.selection)) [
      | inl hit ↦ rw hit (
          changed-IsForgotten id _
            (record { no_focus = focus; no_selection = refl; no_actions = actions }))
      | inr miss ↦
          rw miss (record { no_focus = focus; no_selection = h.no_selection; no_actions = actions })
    ]

sent-AllOthers :
    (id : ℕ) (sel : Selection) (mime : Bytes) (fd : ℕ)
    → (sel.owner == id) ≡ false
    → AllOthers id (send sel.owner sel.source mime fd ∷ [])
sent-AllOthers id sel mime fd h = (ground (arith, h), tt)

pasted-AllOthers :
    (id : ℕ) (current : Bool) (mime : Bytes) (held : Option Selection) (fd : Option ℕ)
    → is_owner id held ≡ false
    → AllOthers id (pasted current mime held fd)
pasted-AllOthers id current mime none fd h = tt
pasted-AllOthers id current mime (some sel) none h = tt
pasted-AllOthers id current mime (some sel) (some fd) h =
    elim (Bool-cases (current && offers_mime mime sel.mimes)) [
      | inl hit ↦ rw hit (sent-AllOthers id sel mime fd h)
      | inr miss ↦ rw miss tt
    ]

asked_of-AllOthers :
    (id : ℕ) (sel : Selection) (mime content : Option Bytes) (fd : Option ℕ)
    → (sel.owner == id) ≡ false
    → AllOthers id (asked_of sel mime content fd)
asked_of-AllOthers id sel (some mime) none (some fd) h = sent-AllOthers id sel mime fd h
asked_of-AllOthers id sel none content fd h = tt
asked_of-AllOthers id sel (some mime) (some content) fd h = tt
asked_of-AllOthers id sel (some mime) none none h = tt

requested-AllOthers :
    (id : ℕ) (types : List Bytes) (pipe : Option ℕ) (held : Option Selection)
    → is_owner id held ≡ false
    → AllOthers id (requested types pipe held)
requested-AllOthers id types pipe none h = tt
requested-AllOthers id types pipe (some sel) h = asked_of-AllOthers id sel _ _ pipe h

push_actions-IsForgotten :
    (id : ℕ) (more : List Action) (c : Clipboard)
    → IsForgotten id c
    → AllOthers id more
    → IsForgotten id (push_actions more c)
push_actions-IsForgotten id more c h k = record {
  no_focus = h.no_focus;
  no_selection = h.no_selection;
  no_actions = AllOthers-append id c.actions more h.no_actions k;
}

copied_owner :
    (id s source : ℕ) (mimes : List Bytes)
    → s ≢ id
    → is_owner id (copied_selection s source mimes) ≡ false
copied_owner id s source mimes h = ground (arith, h)

copy-IsForgotten :
    (id s source : ℕ) (mimes : List Bytes) (c : Clipboard)
    → IsForgotten id c
    → s ≢ id
    → IsForgotten id (copy s source mimes c)
unfolding copy
copy-IsForgotten id s source mimes c h other = elim (Bool-cases (has_focus s c.focus)) [
  | inl hit ↦ rw hit (set_selection-IsForgotten id _ c h (copied_owner id s source mimes other))
  | inr miss ↦ rw miss h
]

keyboard_leave-IsForgotten :
    (id s : ℕ) (c : Clipboard) → IsForgotten id c → IsForgotten id (keyboard_leave s c)
unfolding keyboard_leave
keyboard_leave-IsForgotten id s c h = elim (Bool-cases (has_focus s c.focus)) [
  | inl hit ↦
      rw hit (record { no_focus = refl; no_selection = h.no_selection; no_actions = h.no_actions })
  | inr miss ↦ rw miss h
]

clear_request-IsForgotten :
    (id g : ℕ) (c : Clipboard) → IsForgotten id c → IsForgotten id (clear_request g c)
unfolding clear_request
clear_request-IsForgotten id g c h = elim (Bool-cases (g == c.generation)) [
  | inl hit ↦ rw hit (set_selection-IsForgotten id none c h refl)
  | inr miss ↦ rw miss h
]

apply-IsForgotten :
    (id : ℕ) (e : Event) (c : Clipboard)
    → id ≢ own
    → IsForgotten id c
    → ¬ IsBy id e
    → IsForgotten id (apply e c)
unfolding apply keyboard_enter receive take_request take_actions
apply-IsForgotten id (entered s) c real h other = record {
  no_focus = has_focus-other s id other;
  no_selection = h.no_selection;
  no_actions = h.no_actions;
}
apply-IsForgotten id (left s) c real h other = keyboard_leave-IsForgotten id s c h
apply-IsForgotten id (ended s) c real h other = session_gone-other id s c h
apply-IsForgotten id (copied s source mimes) c real h other =
    copy-IsForgotten id s source mimes c h other
apply-IsForgotten id (destroyed owner source) c real h other =
    source_gone-IsForgotten id owner source c h
apply-IsForgotten id (received offered mime fd) c real h other =
    push_actions-IsForgotten id _ c h (pasted-AllOthers id _ mime c.selection fd h.no_selection)
apply-IsForgotten id (asked types pipe) c real h other =
    push_actions-IsForgotten id _ c h (requested-AllOthers id types pipe c.selection h.no_selection)
apply-IsForgotten id (given mime content) c real h other =
    set_selection-IsForgotten id _ c h (ground (arith, real))
apply-IsForgotten id (cleared g) c real h other = clear_request-IsForgotten id g c h
apply-IsForgotten id taken c real h other = record {
  no_focus = h.no_focus;
  no_selection = h.no_selection;
  no_actions = tt;
}

apply_all-IsForgotten :
    (id : ℕ) (es : List Event) (c : Clipboard)
    → id ≢ own
    → IsForgotten id c
    → NoneBy id es
    → IsForgotten id (apply_all es c)
apply_all-IsForgotten id [] c real h others = h
apply_all-IsForgotten id (e ∷ es) c real h others =
    apply_all-IsForgotten id es (apply e c) real (apply-IsForgotten id e c real h others.0) others.1

-- A session that ended is in no focus, selection or action of the clipboard, and stays so through
-- every later history in which it takes no keyboard and copies nothing.
pub session_gone-stays-IsForgotten :
    (id : ℕ) (c : Clipboard) (es : List Event)
    → id ≢ own
    → NoneBy id es
    → IsForgotten id (apply_all es (session_gone id c))
session_gone-stays-IsForgotten id c es real others =
    apply_all-IsForgotten id es _ real (session_gone-IsForgotten id c) others
