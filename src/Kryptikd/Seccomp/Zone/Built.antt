-- ===== src/Kryptikd/Seccomp/Zone/Built.antt =====
-- Building the filter of a zone (compartments/kryptikd/src/seccomp.rs).
use kryptik_os.Common.{
  ℕ, ◌+◌, ◌≤◌, ◌<◌, ◌≡◌, refl, arith, false, List, [], ◌∷◌, ◌++◌, ok, length, length-append, Bytes,
  u32_mod, ℤ, pos, negsuc, contains_ℤ, inl, inr, Bool-cases,
}
use kryptik_os.Kryptikd.Seccomp.{Libc, SocketPolicy, SockFilter, ret_kill_process}
use kryptik_os.Kryptikd.Seccomp.Rules.{contains}
use mathlib.Core.List.{append_assoc}
use kryptik_os.Kryptikd.Seccomp.Names.{
  map_shadow_stack, by_name, numbers, names, addable_names, named, base_names, denied_names,
  base_allowlist,
}
use kryptik_os.Kryptikd.Seccomp.Widened.{add_call, widened, add_calls, add_kept, widened_for}
use kryptik_os.Kryptikd.Seccomp.Totality.{AllNumbers, build_program_full-ok}
use kryptik_os.Kryptikd.Seccomp.Zone.{cap_calls, zone_filter}

abbrev pub IsNumber : ℤ → Type 0
IsNumber (pos n) = n < u32_mod
IsNumber (negsuc n) = ⊥

AllNumbers-cons : (v : ℤ) (vs : List ℤ) → IsNumber v → AllNumbers vs → AllNumbers (v ∷ vs)
AllNumbers-cons (pos n) vs h all = (h, all)
AllNumbers-cons (negsuc n) vs h all = h

AllNumbers-snoc : (vs : List ℤ) (v : ℤ) → AllNumbers vs → IsNumber v → AllNumbers (vs ++ v ∷ [])
AllNumbers-snoc [] v all h = AllNumbers-cons v [] h tt
AllNumbers-snoc (pos n ∷ vs) v all h = (all.0, AllNumbers-snoc vs v all.1 h)
AllNumbers-snoc (negsuc n ∷ vs) v all h = all

-- A list of numbers of a bounded length.
abbrev IsShort : ℕ → List ℤ → Type 0
IsShort k allow = AllNumbers allow × (length allow ≤ k)

add_call-IsShort :
    (k : ℕ) (allow : List ℤ) (v : ℤ)
    → IsShort k allow
    → IsNumber v
    → IsShort (k + 1) (add_call allow v)
add_call-IsShort k allow v h n = elim (Bool-cases (contains_ℤ allow v)) [
  | inl old ↦ rw old (h.0, omega (arith, h.1))
  | inr new ↦
      rw new (AllNumbers-snoc allow v h.0 n, omega (arith, h.1, length-append allow (v ∷ [])))
]

-- Calls that are numbers, and not denied.
abbrev pub AllFree : List ℤ → List ℤ → Type 0
AllFree banned [] = Unit
AllFree banned (v ∷ vs) = (IsNumber v × (contains_ℤ banned v ≡ false)) × AllFree banned vs

widened-ok :
    (k : ℕ) (allow banned extra : List ℤ)
    → IsShort k allow
    → AllFree banned extra
    → (p : List ℤ) × (widened allow banned extra ≡ ok p) × IsShort (k + length extra) p
unfolding widened
widened-ok k allow banned [] h all = (allow, refl, (h.0, omega (arith, h.1)))
widened-ok k allow banned (v ∷ extra) h all =
    let (p, made, (numbered, short)) =
      widened-ok (k + 1) (add_call allow v) banned extra (add_call-IsShort k allow v h (all.0).0)
        all.1 in
    (p, rw (all.0).1 made, (numbered, omega (arith, short)))

abbrev AllIn : List ℤ → Type 0
AllIn [] = Unit
AllIn (v ∷ vs) = IsNumber v × AllIn vs

add_calls-IsShort :
    (k : ℕ) (allow calls : List ℤ)
    → IsShort k allow
    → AllIn calls
    → IsShort (k + length calls) (add_calls allow calls)
unfolding add_calls
add_calls-IsShort k allow [] h all = (h.0, omega (arith, h.1))
add_calls-IsShort k allow (v ∷ calls) h all =
    let (numbered, short) =
      add_calls-IsShort (k + 1) (add_call allow v) calls (add_call-IsShort k allow v h all.0)
        all.1 in
    (numbered, omega (arith, short))

total_calls : List (ℕ × List ℤ) → ℕ
total_calls [] = 0
total_calls ((cap, calls) ∷ more) = length calls + total_calls more

abbrev AllCalls : List (ℕ × List ℤ) → Type 0
AllCalls [] = Unit
AllCalls ((cap, calls) ∷ more) = AllIn calls × AllCalls more

add_kept-IsShort :
    (k : ℕ) (table : List (ℕ × List ℤ)) (kept : List ℕ) (allow : List ℤ)
    → IsShort k allow
    → AllCalls table
    → IsShort (k + total_calls table) (add_kept table kept allow)
unfolding add_kept total_calls
add_kept-IsShort k [] kept allow h all = (h.0, omega (arith, h.1))
add_kept-IsShort k ((cap, calls) ∷ more) kept allow h all = elim (Bool-cases (contains kept cap)) [
  | inl keeps ↦
      let (numbered, short) =
        add_kept-IsShort (k + length calls) more kept (add_calls allow calls)
          (add_calls-IsShort k allow calls h all.0) all.1 in
      rw keeps (numbered, omega (arith, short))
  | inr drops ↦
      let (numbered, short) = add_kept-IsShort k more kept allow h all.1 in
      rw drops (numbered, omega (arith, short))
]

-- The numbers of the libc crate are of 32 bits.
abbrev pub LibcNumbers : (Bytes → ℤ) → Type 0
LibcNumbers number = (name : Bytes) → IsNumber (number name)

by_name-AllNumbers :
    (number : Bytes → ℤ) (ns : List Bytes) (tail : List (Bytes × ℤ))
    → LibcNumbers number
    → AllNumbers (numbers number tail)
    → AllNumbers (numbers number (by_name number ns ++ tail))
by_name-AllNumbers number [] tail fit all = all
by_name-AllNumbers number (n ∷ ns) tail fit all =
    AllNumbers-cons (number n) _ (fit n) (by_name-AllNumbers number ns tail fit all)

by_name-AllNumbers-own :
    (number : Bytes → ℤ) (ns : List Bytes)
    → LibcNumbers number
    → AllNumbers (numbers number (by_name number ns))
by_name-AllNumbers-own number [] fit = tt
by_name-AllNumbers-own number (n ∷ ns) fit =
    AllNumbers-cons (number n) _ (fit n) (by_name-AllNumbers-own number ns fit)

pub names-AllNumbers :
    (number : Bytes → ℤ) → LibcNumbers number → AllNumbers (numbers number (names number))
names-AllNumbers number fit = by_name-AllNumbers number denied_names _ fit (
    rw
      (append_assoc (by_name number base_names) (map_shadow_stack ∷ [])
        (by_name number addable_names))
      (by_name-AllNumbers number base_names _ fit
        (omega arith, by_name-AllNumbers-own number addable_names fit)))

length-base : (number : Bytes → ℤ) → length (base_allowlist number) ≤ 400
unfolding base_names named
length-base number = omega arith

pub zone_filter-ok :
    (libc : Libc) (number : Bytes → ℤ) (extra : List ℤ) (sockets : SocketPolicy) (kept : List ℕ)
    → LibcNumbers number
    → AllFree (numbers number (by_name number denied_names)) extra
    → length extra ≤ 800
    → length sockets.families + length sockets.netlink_protocols ≤ 230
    → (p : List SockFilter) × (zone_filter libc number extra sockets kept ≡ ok p)
unfolding zone_filter widened_for total_calls
zone_filter-ok libc number extra sockets kept fit free few names =
    let base : AllNumbers (base_allowlist number) =
      by_name-AllNumbers number base_names _ fit (omega arith) in
    let (allow, made, wide) =
      widened-ok 400 (base_allowlist number) (numbers number (by_name number denied_names)) extra
        (base, length-base number) free in
    let calls : AllCalls (cap_calls number) =
      ((fit _, (fit _, tt)), ((fit _, (fit _, tt)), ((fit _, tt), tt))) in
    let (numbered, short) =
      add_kept-IsShort (400 + length extra) (cap_calls number) kept allow wide calls in
    let (p, built) =
      build_program_full-ok libc (add_kept (cap_calls number) kept allow) ret_kill_process sockets
        names (omega (arith, short, few)) numbered in
    (p, rw (made) built)
