-- ===== src/Kryptikd/Policy/Filter.antt =====
-- The filter of a zone whose policy came from a file: compartments/kryptikd/src/policy.rs and
-- compartments/kryptikd/src/seccomp.rs together.
use kryptik_os.Common.{
  negsuc, ◌∙◌, sym, ℕ, ◌≡◌, ◌≢◌, refl, arith, Bool, true, false, List, [], ◌∷◌, some, Result, ok,
  err, >>=-eq-ok, ◌==◌, ==_iff, length, Bytes, eq_bytes, sym, ◌∙◌, ℤ, pos, contains_ℤ, inl, inr,
  Bool-cases,
}
use kryptik_os.Kryptikd.Seccomp.{
  SeccompError, Libc, SocketPolicy, SockFilter, ret_allow, ret_kill_process, refused_softly,
}
use kryptik_os.Kryptikd.Seccomp.Rules.{contains, arg_rules}
use kryptik_os.Kryptikd.Seccomp.Names
use kryptik_os.Kryptikd.Seccomp.Names.{
  number_in, by_name, numbers, named, base_names, denied_names, addable_names, is_denied,
  base_allowlist,
}
use kryptik_os.Kryptikd.Seccomp.Program.{build_program_full}
use kryptik_os.Kryptikd.Seccomp.Machine.{Call, evaluate_args}
use kryptik_os.Kryptikd.Seccomp.Decision.{RulesFit, AllFit, evaluate_args-build}
use kryptik_os.Kryptikd.Seccomp.Widened.{widened_for, opened, widened_for-contains}
use kryptik_os.Kryptikd.Seccomp.Totality.{AllNumbers}
use kryptik_os.Kryptikd.Seccomp.Zone.{cap_calls, or_stop, zone_filter}
use kryptik_os.Kryptikd.Seccomp.Zone.Refusals.{decide-refuses}
use kryptik_os.Kryptikd.Seccomp.Zone.Built.{
  IsNumber, LibcNumbers, AllFree, zone_filter-ok, names-AllNumbers,
}
use kryptik_os.Kryptikd.Caps.{nic_only, cap_setuid, cap_setgid, cap_sys_chroot}
use kryptik_os.Kryptikd.Policy.{Policy, parse_policy, check_for_zone}
use kryptik_os.Kryptikd.Policy.Sound.{
  Addable, parse_policy-Addable, parse_policy-sockets, parse_policy-Keepable,
}

AllNumbers-head : (v : ℤ) (vs : List ℤ) → AllNumbers (v ∷ vs) → IsNumber v
AllNumbers-head (pos n) vs all = all.0
AllNumbers-head (negsuc n) vs all = all

AllNumbers-tail : (v : ℤ) (vs : List ℤ) → AllNumbers (v ∷ vs) → AllNumbers vs
AllNumbers-tail (pos n) vs all = all.1
AllNumbers-tail (negsuc n) vs all = absurd all

number_in-IsNumber :
    (number : Bytes → ℤ) (table : List (Bytes × ℤ)) (name : Bytes) (v : ℤ)
    → AllNumbers (numbers number table)
    → number_in table name ≡ some v
    → IsNumber v
number_in-IsNumber number [] name v all h = cc
number_in-IsNumber number ((n, x) ∷ more) name v all h = elim (Bool-cases (eq_bytes n name)) [
  | inl hit ↦
      let e : x ≡ v = let k = rw hit at h in ground (arith, k) in
      rw (← e) (AllNumbers-head x (numbers number more) all)
  | inr miss ↦
      let k = rw miss at h in
      number_in-IsNumber number more name v (AllNumbers-tail x (numbers number more) all) k
]

Addable-AllFree :
    (number : Bytes → ℤ) (vs : List ℤ)
    → LibcNumbers number
    → Addable number vs
    → AllFree (numbers number (by_name number denied_names)) vs
Addable-AllFree number [] fit all = tt
Addable-AllFree number (v ∷ vs) fit ((name, found, fine), more) = (
  (number_in-IsNumber number (Names.names number) name v (names-AllNumbers number fit) found, fine),
  Addable-AllFree number vs fit more,
)

-- Whatever a policy file says, if it is accepted, the filter of its zone is built: it names no
-- denied call, no jump is too long and the kernel's limit is not reached. The numbers of the libc
-- crate are of 32 bits.
pub zone_filter-parse_policy :
    (libc : Libc) (number : Bytes → ℤ) (text : Bytes) (p : Policy)
    → LibcNumbers number
    → parse_policy number text ≡ ok p
    → (program : List SockFilter) × (zone_filter libc number p.extra_syscalls p.sockets p.keep_caps
        ≡ ok program)
zone_filter-parse_policy libc number text p fit h =
    let (calls, few) = parse_policy-Addable number text p h in
    let names = parse_policy-sockets number text p h in
    zone_filter-ok libc number p.extra_syscalls p.sockets p.keep_caps fit
      (Addable-AllFree number p.extra_syscalls fit calls) (omega (arith, few))
      (omega (arith, names))

-- What a zone without the NIC keeps opens no call.
check_for_zone-free :
    (keep : List ℕ) (caps : List Bytes) (c : ℕ) {b : Bool}
    → length keep ≡ length caps
    → check_for_zone false keep caps ≡ ok b
    → contains nic_only c ≡ true
    → contains keep c ≡ false
unfolding check_for_zone
check_for_zone-free [] caps c e h nic = refl
check_for_zone-free (k ∷ keep) [] c e h nic = absurd (omega arith)
check_for_zone-free (k ∷ keep) (name ∷ caps) c e h nic = elim (Bool-cases (contains nic_only k)) [
  | inl only ↦ let g = rw only at h in cc
  | inr other ↦
      let g = rw other at h in
      let rest = check_for_zone-free keep caps c (omega arith) g nic in
      elim (Bool-cases (k == c)) [
        | inr apart ↦ rw apart rest
        | inl same ↦ absurd (let k' = rw ((==_iff k c).0 same) at other in cc)
      ]
]

opened-free :
    (number : Bytes → ℤ) (keep : List ℕ) (v : ℤ)
    → contains keep cap_setuid ≡ false
    → contains keep cap_setgid ≡ false
    → contains keep cap_sys_chroot ≡ false
    → opened (cap_calls number) keep v ≡ false
opened-free number keep v a b c = rw (a, b, c) refl

or_stop-eq-ok : {A : Type 0} (m : Result SeccompError A) (a : A) → or_stop m ≡ ok a → m ≡ ok a
or_stop-eq-ok (ok x) a h = cc
or_stop-eq-ok (err e) a h = cc

zone_filter-parts :
    (libc : Libc) (number : Bytes → ℤ) (extra : List ℤ) (sockets : SocketPolicy) (kept : List ℕ)
    (program : List SockFilter)
    → zone_filter libc number extra sockets kept ≡ ok program
    → (allow : List ℤ) × (widened_for
          (cap_calls number)
          (base_allowlist number)
          (numbers number (by_name number denied_names))
          extra
          kept
        ≡ ok allow)
      × (build_program_full libc allow ret_kill_process sockets ≡ ok program)
unfolding zone_filter
zone_filter-parts libc number extra sockets kept program h =
    let (allow, made, built) =
      >>=-eq-ok
        (or_stop (
          widened_for (cap_calls number) (base_allowlist number)
            (numbers number (by_name number denied_names)) extra kept))
        _ h in
    (allow, or_stop-eq-ok _ allow made, built)

-- A zone that does not own the NIC: no policy file that is accepted for it lets a denied call
-- through its filter, whatever the call's arguments. The denied call is of the libc crate's numbers
-- and not in the base list, and the numbers of the rules fit 32 bits.
pub zone_filter-is_denied :
    (libc : Libc) (number : Bytes → ℤ) (text : Bytes) (p : Policy) (program : List SockFilter)
    (c : Call) {b : Bool}
    → RulesFit libc arg_rules
    → AllFit (refused_softly libc)
    → parse_policy number text ≡ ok p
    → check_for_zone false p.keep_caps p.keep_cap_names ≡ ok b
    → zone_filter libc number p.extra_syscalls p.sockets p.keep_caps ≡ ok program
    → is_denied number (pos c.nr) ≡ true
    → contains_ℤ (base_allowlist number) (pos c.nr) ≡ false
    → evaluate_args program c ≢ some ret_allow
zone_filter-is_denied libc number text p program c rules softs h zone built denied base allowed =
    let (allow, wide, made) =
      zone_filter-parts libc number p.extra_syscalls p.sockets p.keep_caps program built in
    let (members, free) =
      widened_for-contains (cap_calls number) (base_allowlist number)
        (numbers number (by_name number denied_names)) p.extra_syscalls p.keep_caps allow (pos c.nr)
        wide in
    let (caps, named) = parse_policy-Keepable number text p h in
    let shut : opened (cap_calls number) p.keep_caps (pos c.nr) ≡ false =
      opened-free number p.keep_caps (pos c.nr)
        (check_for_zone-free p.keep_caps p.keep_cap_names cap_setuid named zone refl)
        (check_for_zone-free p.keep_caps p.keep_cap_names cap_setgid named zone refl)
        (check_for_zone-free p.keep_caps p.keep_cap_names cap_sys_chroot named zone refl) in
    let missing : contains_ℤ allow (pos c.nr) ≡ false =
      elim (Bool-cases (contains_ℤ p.extra_syscalls (pos c.nr))) [
        | inl added ↦ absurd (let k = free added in cc)
        | inr other ↦ rw (members, base, other) shut
      ] in
    let names = parse_policy-sockets number text p h in
    let verdict =
      evaluate_args-build libc allow ret_kill_process p.sockets c program rules softs
        (omega (arith, names)) made in
    decide-refuses libc allow p.sockets c missing (sym verdict ∙ allowed)
