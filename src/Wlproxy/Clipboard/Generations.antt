-- ===== src/Wlproxy/Clipboard/Generations.antt =====
-- A generation names one selection: an offer made for it reads that selection or nothing. A
-- selection is the copy of the client with the keyboard.
use kryptik_os.Common.{
  ℕ, ◌<◌, ◌≡◌, ◌⊎◌, inl, inr, refl, ap, ◌∙◌, arith, Bool, true, false, List, [], ◌∷◌, ◌++◌, Option,
  none, some, ◌==◌, Bytes, Bool-cases,
}
use kryptik_os.Wlproxy.Clipboard.{
  own, Selection, Action, send, Clipboard, changed, is_source, set_selection, source_gone, is_owner,
  session_gone, has_focus, offers_mime, keyboard_enter, keyboard_leave, copy, receive, take_actions,
  pasted, take_request, clear_request, Event, entered, left, ended, copied, destroyed, received,
  asked, given, cleared, taken, apply, apply_all,
}

-- The later clipboard is of a later generation, or of the same one with the same selection.
abbrev pub Follows : Clipboard → Clipboard → Type 0
Follows c d =
    (c.generation < d.generation) ⊎ ((c.generation ≡ d.generation) × (c.selection ≡ d.selection))

Follows-trans : (a b c : Clipboard) → Follows a b → Follows b c → Follows a c
Follows-trans a b c (inl h) (inl k) = inl (omega arith)
Follows-trans a b c (inl h) (inr k) = inl (omega (arith, k.0))
Follows-trans a b c (inr h) (inl k) = inl (omega (arith, h.0))
Follows-trans a b c (inr h) (inr k) = inr (h.0 ∙ k.0, h.1 ∙ k.1)

set_selection-Follows :
    (sel : Option Selection) (c : Clipboard) → c.generation < (set_selection sel c).generation
unfolding set_selection changed
set_selection-Follows sel c = omega arith

copy-Follows :
    (id source : ℕ) (mimes : List Bytes) (c : Clipboard) → Follows c (copy id source mimes c)
unfolding copy
copy-Follows id source mimes c = elim (Bool-cases (has_focus id c.focus)) [
  | inl hit ↦ rw hit (inl (set_selection-Follows _ c))
  | inr miss ↦ rw miss (inr (refl, refl))
]

keyboard_leave-Follows : (id : ℕ) (c : Clipboard) → Follows c (keyboard_leave id c)
unfolding keyboard_leave
keyboard_leave-Follows id c = elim (Bool-cases (has_focus id c.focus)) [
  | inl hit ↦ rw hit (inr (refl, refl))
  | inr miss ↦ rw miss (inr (refl, refl))
]

clear_request-Follows : (g : ℕ) (c : Clipboard) → Follows c (clear_request g c)
unfolding clear_request
clear_request-Follows g c = elim (Bool-cases (g == c.generation)) [
  | inl hit ↦ rw hit (inl (set_selection-Follows none c))
  | inr miss ↦ rw miss (inr (refl, refl))
]

source_gone-Follows : (owner source : ℕ) (c : Clipboard) → Follows c (source_gone owner source c)
unfolding source_gone changed
source_gone-Follows owner source c = elim (Bool-cases (is_source owner source c.selection)) [
  | inl hit ↦ rw hit (inl (omega arith))
  | inr miss ↦ rw miss (inr (refl, refl))
]

session_gone-Follows : (id : ℕ) (c : Clipboard) → Follows c (session_gone id c)
unfolding session_gone changed
session_gone-Follows id c = elim (Bool-cases (is_owner id c.selection)) [
  | inl hit ↦ rw hit (inl (omega arith))
  | inr miss ↦ rw miss (inr (refl, refl))
]

apply-Follows : (e : Event) (c : Clipboard) → Follows c (apply e c)
unfolding apply keyboard_enter receive take_request take_actions
apply-Follows (entered s) c = inr (refl, refl)
apply-Follows (left s) c = keyboard_leave-Follows s c
apply-Follows (ended s) c = session_gone-Follows s c
apply-Follows (copied s source mimes) c = copy-Follows s source mimes c
apply-Follows (destroyed owner source) c = source_gone-Follows owner source c
apply-Follows (received offered mime fd) c = inr (refl, refl)
apply-Follows (asked types pipe) c = inr (refl, refl)
apply-Follows (given mime content) c = inl (set_selection-Follows _ c)
apply-Follows (cleared g) c = clear_request-Follows g c
apply-Follows taken c = inr (refl, refl)

apply_all-Follows : (es : List Event) (c : Clipboard) → Follows c (apply_all es c)
apply_all-Follows [] c = inr (refl, refl)
apply_all-Follows (e ∷ es) c =
    Follows-trans c (apply e c) (apply_all es (apply e c)) (apply-Follows e c)
      (apply_all-Follows es (apply e c))

-- What a request for data may push: nothing, or a request to the owner of a selection for a type
-- it offers.
abbrev pub Asks : Option Selection → Bytes → ℕ → List Action → Type 0
Asks held mime fd more =
    (more ≡ [])
    ⊎ ((sel : Selection) × (held ≡ some sel)
        × (offers_mime mime sel.mimes ≡ true)
        × (more ≡ send sel.owner sel.source mime fd ∷ []))

pasted-Asks :
    (current : Bool) (mime : Bytes) (held : Option Selection) (fd : ℕ)
    → Asks held mime fd (pasted current mime held (some fd))
pasted-Asks current mime none fd = inl refl
pasted-Asks true mime (some sel) fd = elim (Bool-cases (offers_mime mime sel.mimes)) [
  | inl hit ↦ inr (sel, refl, hit, rw hit refl)
  | inr miss ↦ inl (rw miss refl)
]
pasted-Asks false mime (some sel) fd = inl refl

pasted-Asks_kept :
    (current : Bool) (mime : Bytes) (held now : Option Selection) (fd : ℕ)
    → held ≡ now
    → Asks held mime fd (pasted current mime now (some fd))
pasted-Asks_kept current mime held now fd e = rw e (pasted-Asks current mime now fd)

pasted_stale :
    (mime : Bytes) (held : Option Selection) (fd : ℕ) → pasted false mime held (some fd) ≡ []
pasted_stale mime none fd = refl
pasted_stale mime (some sel) fd = refl

-- A paste, after any history, through an offer made for the clipboard before it: nothing is asked,
-- or the owner of the selection of that time is asked for a type it offered.
pub receive-apply_all :
    (c : Clipboard) (es : List Event) (mime : Bytes) (fd : ℕ)
    → (more : List Action) × ((receive (some c.generation) mime (some fd) (apply_all es c)).actions
        ≡ (apply_all es c).actions ++ more)
      × Asks c.selection mime fd more
unfolding receive
receive-apply_all c es mime fd =
    let d = apply_all es c in
    (
      pasted (c.generation == d.generation) mime d.selection (some fd),
      refl,
      elim (apply_all-Follows es c) [
        | inl later ↦
            let stale : (c.generation == d.generation) ≡ false = ground (arith, later) in
            inl (rw stale (pasted_stale mime d.selection fd))
        | inr (same, kept) ↦ pasted-Asks_kept _ mime c.selection d.selection fd kept
      ],
    )

has_focus-true : (s : ℕ) (f : Option ℕ) → has_focus s f ≡ true → f ≡ some s
has_focus-true s none h = cc
has_focus-true s (some f) h = ap some (ground (arith, h))

-- Only the client with the keyboard copies: what an event makes the selection is the one before,
-- the proxy's own, or of the session that has the keyboard.
pub apply-selection :
    (e : Event) (c : Clipboard) (sel : Selection)
    → (apply e c).selection ≡ some sel
    → (c.selection ≡ some sel) ⊎ (sel.owner ≡ own) ⊎ (c.focus ≡ some sel.owner)
unfolding apply keyboard_enter keyboard_leave session_gone copy source_gone receive take_request
    clear_request take_actions set_selection changed
apply-selection (entered s) c sel h = inl h
apply-selection (left s) c sel h = inl (ground (arith, h))
apply-selection (ended s) c sel h = inl (ground (arith, h))
apply-selection (copied s source mimes) c sel h = elim (Bool-cases (has_focus s c.focus)) [
  | inl hit ↦ inr (inr (has_focus-true s c.focus hit ∙ ground (arith, h, hit)))
  | inr miss ↦ inl (ground (arith, h, miss))
]
apply-selection (destroyed owner source) c sel h = inl (ground (arith, h))
apply-selection (received offered mime fd) c sel h = inl h
apply-selection (asked types pipe) c sel h = inl h
apply-selection (given mime content) c sel h = inr (inl (ground (arith, h)))
apply-selection (cleared g) c sel h = inl (ground (arith, h))
apply-selection taken c sel h = inl h
