-- ===== src/Wlproxy/Session/Budgets.antt =====
-- The counts of windows and menus are those of the live objects, so that they stay within their
-- budgets and never go below zero; and every live object is of an interface of the tables.
use kryptik_os.Common.{
  ℕ, zero, suc, ◌+◌, ◌-◌, ◌≤◌, ◌<◌, ◌≡◌, refl, ap, arith, Bool, true, false, not, ◌&&◌, Option,
  none, some, ok, err, Result, ok-eq, ok_or, >>=-eq-ok, ltb, ◌==◌, if◌then◌else◌, Bytes, inl, inr,
  Bool-cases,
}
use mathlib.Core.Option.{some-injective}
use kryptik_os.Wlproxy.Protocol.{Interface, Message}
use kryptik_os.Wlproxy.Failure.{Dir, SessionError, hidden_interface}
use kryptik_os.Wlproxy.Objects.{Obj, Objects, get, insert, remove}
use kryptik_os.Wlproxy.Objects.Slots.{weight}
use kryptik_os.Wlproxy.Objects.Totals.{total, insert-total, remove-total}
use kryptik_os.Wlproxy.Objects.Lookup.{get-insert, get-remove}
use kryptik_os.Wlproxy.Objects.Invariant.{IsBounded, insert-IsBounded, remove-IsBounded}
use kryptik_os.Wlproxy.Tables.{find}
use kryptik_os.Wlproxy.Tables.Known.{IsKnown, find-IsKnown}
use kryptik_os.Wlproxy.Session.{
  max_toplevels_per_session, max_popups_per_session, Session, check_since, register, is_toplevel,
  is_popup, in_range, counted, within_budgets, less_one, delete_at, delete_object,
  register_in_range,
}

-- The popups that are no toplevels: the source counts an interface once.
abbrev pub is_menu : Interface → Bool
is_menu i = not (is_toplevel i) && is_popup i

pub record IsCounted (s : Session) : Type 0 where
  pub toplevels_counted : s.toplevels ≡ total is_toplevel s.objects
  pub popups_counted : s.popups ≡ total is_menu s.objects
  pub toplevels_bounded : s.toplevels ≤ max_toplevels_per_session
  pub popups_bounded : s.popups ≤ max_popups_per_session
  pub bounded : IsBounded s.objects
  pub known : (id : ℕ) (o : Obj) → get s.objects id ≡ some o → IsKnown o.0

module _ (s : Session) (iface : Interface) where
  within_budgets-ok :
      (b : Bool)
      → within_budgets s iface ≡ ok b
      → (is_toplevel iface ≡ true → s.toplevels < max_toplevels_per_session)
        × (is_menu iface ≡ true → s.popups < max_popups_per_session)
  unfolding within_budgets
  within_budgets-ok b h = (λ top. ground (arith, h, top), λ menu. ground (arith, h, menu))

IsKnown-some :
    (iface : Interface) (version : ℕ) (o : Obj)
    → IsKnown iface
    → some (iface, version) ≡ some o
    → IsKnown o.0
IsKnown-some iface version o k e = rw (← some-injective (iface, version) o e) k

counted-IsCounted :
    (s : Session) (objects : Objects) (iface : Interface) (id version : ℕ)
    → IsCounted s
    → IsKnown iface
    → (is_toplevel iface ≡ true → s.toplevels < max_toplevels_per_session)
      × (is_menu iface ≡ true → s.popups < max_popups_per_session)
    → insert s.objects id (iface, version) ≡ ok objects
    → IsCounted (counted s iface objects)
counted-IsCounted s objects iface id version c k room h = record {
  toplevels_counted = ground (
    arith,
    c.toplevels_counted,
    insert-total is_toplevel s.objects objects id (iface, version) h,
  );
  popups_counted =
      ground
        (arith, c.popups_counted, insert-total is_menu s.objects objects id (iface, version) h);
  toplevels_bounded = ground (arith, c.toplevels_bounded, room.0);
  popups_bounded = ground (arith, c.popups_bounded, room.1);
  bounded = insert-IsBounded s.objects objects id (iface, version) c.bounded h;
  known = λ j o at. elim (Bool-cases (id == j)) [
    | inl hit ↦
        IsKnown-some iface version o k
          (ground (arith, at, hit, (get-insert s.objects objects id (iface, version) h).0 j))
    | inr miss ↦
        c.known j o
          (ground (arith, at, miss, (get-insert s.objects objects id (iface, version) h).0 j))
  ];
}

pub if-ok :
    (b : Bool) (m : Result SessionError Session) (e : SessionError) (s : Session)
    → (if b then m else err e) ≡ ok s
    → (b ≡ true) × (m ≡ ok s)
if-ok true m e s h = (refl, h)
if-ok false m e s h = cc

register_in_range-IsCounted :
    (s s' : Session) (id : ℕ) (name : Bytes) (version : ℕ)
    → IsCounted s
    → register_in_range s id name version ≡ ok s'
    → IsCounted s'
unfolding register_in_range
register_in_range-IsCounted s s' id name version c h =
    let (iface, sought, h1) = >>=-eq-ok (ok_or (find name) (hidden_interface name)) _ h in
    let (b, room, h2) = >>=-eq-ok (within_budgets s iface) _ h1 in
    let (objects, made, e) = >>=-eq-ok (insert s.objects id (iface, version)) _ h2 in
    let found : find name ≡ some iface = ground (arith, sought) in
    rw (← ok-eq e) (
      counted-IsCounted s objects iface id version c (find-IsKnown name iface found).1
        (within_budgets-ok s iface b room) made)

-- An object that is accepted from either side keeps the counts, the budgets and the interfaces of
-- the tables.
pub register-IsCounted :
    (s s' : Session) (id : ℕ) (name : Bytes) (version : ℕ) (dir : Dir)
    → IsCounted s
    → register s id name version dir ≡ ok s'
    → IsCounted s'
unfolding register
register-IsCounted s s' id name version dir c h =
    let (inside, made) = if-ok (in_range dir id) _ _ s' h in
    register_in_range-IsCounted s s' id name version c made

less_one-some :
    (b : Bool) (n : ℕ) → (b ≡ true → 0 < n) → less_one b n ≡ some (n - (if b then 1 else 0))
less_one-some false n h = ap some (omega arith)
less_one-some true zero h = absurd (ground (arith, h refl))
less_one-some true (suc n) h = ap some (omega arith)

remove-IsKnown :
    (s : Session) (id j : ℕ) (o : Obj)
    → IsCounted s
    → get (remove s.objects id) j ≡ some o
    → IsKnown o.0
remove-IsKnown s id j o c at = elim (Bool-cases (id == j)) [
  | inl hit ↦ absurd (ground (arith, at, hit, get-remove s.objects id j))
  | inr miss ↦ c.known j o (ground (arith, at, miss, get-remove s.objects id j))
]

delete_at-IsCounted :
    (s : Session) (id : ℕ) (o : Option Obj)
    → IsCounted s
    → get s.objects id ≡ o
    → (s' : Session) × (delete_at o s id ≡ some s') × IsCounted s'
delete_at-IsCounted s id none c at =
    let top = remove-total is_toplevel s.objects id in
    let menu = remove-total is_menu s.objects id in
    (
      record s { objects = remove s.objects id },
      refl,
      record {
        toplevels_counted = ground (arith, c.toplevels_counted, top, at);
        popups_counted = ground (arith, c.popups_counted, menu, at);
        toplevels_bounded = c.toplevels_bounded;
        popups_bounded = c.popups_bounded;
        bounded = remove-IsBounded s.objects id c.bounded;
        known = λ j o at_j. remove-IsKnown s id j o c at_j;
      },
    )
delete_at-IsCounted s id (some (iface, version)) c at =
    let objects = remove s.objects id in
    let one : ℕ = if is_toplevel iface then 1 else 0 in
    let other : ℕ = if is_menu iface then 1 else 0 in
    let top : total is_toplevel objects + one ≡ s.toplevels = omega (
      arith,
      remove-total is_toplevel s.objects id,
      ap (weight is_toplevel) at,
      c.toplevels_counted,
    ) in
    let menu : total is_menu objects + other ≡ s.popups =
      omega (arith, remove-total is_menu s.objects id, ap (weight is_menu) at, c.popups_counted) in
    let first = less_one-some (is_toplevel iface) s.toplevels (λ y. ground (arith, top, y)) in
    let second = less_one-some (is_menu iface) s.popups (λ y. ground (arith, menu, y)) in
    (
      record { objects = objects; toplevels = s.toplevels - one; popups = s.popups - other },
      rw (first, second) refl,
      record {
        toplevels_counted = omega (arith, top);
        popups_counted = omega (arith, menu);
        toplevels_bounded = omega (arith, c.toplevels_bounded);
        popups_bounded = omega (arith, c.popups_bounded);
        bounded = remove-IsBounded s.objects id c.bounded;
        known = λ j o at_j. remove-IsKnown s id j o c at_j;
      },
    )

-- The end of an object takes no count below zero, and keeps what registering keeps.
pub delete_object-IsCounted :
    (s : Session) (id : ℕ)
    → IsCounted s
    → (s' : Session) × (delete_object s id ≡ some s') × IsCounted s'
unfolding delete_object
delete_object-IsCounted s id c = delete_at-IsCounted s id (get s.objects id) c refl

pub check_since-ok :
    (i iface : Interface) (n m : Message) (v version : ℕ)
    → check_since i n v ≡ ok (iface, m, version)
    → (i ≡ iface) × (n ≡ m) × (v ≡ version) × (n.since ≤ v)
unfolding check_since
check_since-ok i iface n m v version h = elim (Bool-cases (ltb v n.since)) [
  | inl late ↦ absurd (ground (arith, h, late))
  | inr fine ↦
      let made : ◌≡◌ {A = Result SessionError (Interface × Message × ℕ)} (ok (i, n, v))
          (ok (iface, m, version)) =
        ground (arith, h, fine) in
      (cc made, cc made, cc made, ground (arith, fine))
]
