-- ===== src/Wlproxy/Session/History/Counts.antt =====
-- The counts of windows and menus over the histories of a connection.
use kryptik_os.Common.{
  ℕ, zero, suc, ◌≡◌, ◌∙◌, refl, sym, arith, List, [], ◌∷◌, none, some, ltb, and_then-some, inl, inr,
  Bool-cases,
}
use mathlib.Core.Option.{some-injective}
use kryptik_os.Wlproxy.Wire.{server_id_base}
use kryptik_os.Wlproxy.Objects.{Obj, get}
use kryptik_os.Wlproxy.Objects.Slots.{at_slot}
use kryptik_os.Wlproxy.Tables.Core.{wl_display}
use kryptik_os.Wlproxy.Tables.Known.{IsKnown}
use kryptik_os.Wlproxy.Session.{Session, register}
use kryptik_os.Wlproxy.Session.Budgets.{IsCounted, register-IsCounted, delete_object-IsCounted}
use kryptik_os.Wlproxy.Session.History.{
  Change, registered, deleted, opened, new_session-opened, run, accepted-some,
}

pub wl_display-IsKnown : IsKnown wl_display
wl_display-IsKnown = (0, refl)

one_slot : (d o : Obj) (i : ℕ) → at_slot (none ∷ some d ∷ []) i ≡ some o → d ≡ o
one_slot d o zero h = cc
one_slot d o (suc zero) h = some-injective d o h
one_slot d o (suc (suc i)) h = cc

opened-IsKnown : (id : ℕ) (o : Obj) → get opened.objects id ≡ some o → IsKnown o.0
unfolding get
opened-IsKnown id o h = elim (Bool-cases (ltb id server_id_base)) [
  | inl hit ↦
      let same = one_slot (wl_display, 1) o id (ground (arith, h, hit)) in
      rw (← same) wl_display-IsKnown
  | inr miss ↦ absurd (ground (arith, h, miss))
]

pub opened-IsCounted : IsCounted opened
opened-IsCounted = record {
  toplevels_counted = refl;
  popups_counted = refl;
  toplevels_bounded = omega arith;
  popups_bounded = omega arith;
  bounded = omega arith;
  known = opened-IsKnown;
}

-- Every history keeps what one registering and one deletion keep.
run-IsCounted : (cs : List Change) (s : Session) → run cs ≡ some s → IsCounted s
unfolding run
run-IsCounted [] s h = rw (← some-injective opened s (sym new_session-opened ∙ h)) opened-IsCounted
run-IsCounted (registered id name version dir ∷ cs) s h =
    let (s0, before, e) = and_then-some (run cs) _ h in
    register-IsCounted s0 s id name version dir (run-IsCounted cs s0 before)
      (accepted-some (register s0 id name version dir) s e)
run-IsCounted (deleted id ∷ cs) s h =
    let (s0, before, e) = and_then-some (run cs) _ h in
    let (s', gone, counted) = delete_object-IsCounted s0 id (run-IsCounted cs s0 before) in
    rw (← some-injective s' s (sym gone ∙ e)) counted

-- After every accepted history since the connection began, the compositor may delete any id: no
-- count underflows, and afterwards the counts are still those of the live objects and within
-- their budgets.
pub run-deleted :
    (cs : List Change) (id : ℕ) (s : Session)
    → run cs ≡ some s
    → (s' : Session) × (run (deleted id ∷ cs) ≡ some s') × IsCounted s'
unfolding run
run-deleted cs id s h =
    let (s', gone, counted) = delete_object-IsCounted s id (run-IsCounted cs s h) in
    (s', rw h gone, counted)
