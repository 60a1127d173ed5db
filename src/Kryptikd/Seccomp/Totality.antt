-- ===== src/Kryptikd/Seccomp/Totality.antt =====
-- Building a filter: the assertion on the length of a jump never fires, and what is refused.
use kryptik_os.Common.{
  ℕ, ◌+◌, ◌-◌, ◌*◌, ◌<◌, ◌≤◌, ◌≡◌, refl, ap, arith, Bool, true, false, not, List, [], ◌∷◌, ◌++◌,
  some, ltb, ◌==◌, if◌then◌else◌, length, u32_mod, inl, inr, Bool-cases, ok, ℤ, pos, negsuc,
  contains_ℤ, length-append,
}
use kryptik_os.Kryptikd.Seccomp.{
  Libc, SocketPolicy, SockFilter, stmt, jump, jeq_k, ld_w_abs, ret_k, ret_allow, arg_lo, af_netlink,
  refused_softly,
}
use kryptik_os.Kryptikd.Seccomp.Rules.{
  ArgRule, clone_no_namespaces, clone3_enosys, ioctl_refused, socket_families, socketpair_unix,
  arg_rules, rule_nr, off, compare_at, compare_all, returns, netlink_part, socket_body, family_list,
  protocol_list, rule_body, guarded, emit_arg_rule,
}
use kryptik_os.Kryptikd.Seccomp.Program.{
  pair, rules_part, soft_part, is_rule, allow_one, allow_part, assemble, checked,
  build_program_full,
}
use kryptik_os.Kryptikd.Seccomp.Machine.{Call}
use kryptik_os.Kryptikd.Seccomp.Sockets.Families.{family_list-cons, protocol_list-cons}
use kryptik_os.Kryptikd.Seccomp.Decision.{rule-IsBody}

compare_at-some :
    (idx allow_idx deny_idx x : ℕ)
    → idx < allow_idx
    → allow_idx ≤ 255
    → deny_idx ≡ allow_idx + 1
    → (i : SockFilter) × (compare_at idx allow_idx deny_idx x ≡ some i)
unfolding compare_at off
compare_at-some idx allow_idx deny_idx x lt near e = (
  jump jeq_k x (allow_idx - (idx + 1)) (if idx + 1 == allow_idx then deny_idx - (idx + 1) else 0),
  ground arith,
)

compare_all-some :
    (idx allow_idx deny_idx : ℕ) (xs : List ℕ)
    → idx + length xs ≤ allow_idx
    → allow_idx ≤ 255
    → deny_idx ≡ allow_idx + 1
    → (is : List SockFilter) × (compare_all idx allow_idx deny_idx xs ≡ some is)
unfolding compare_all
compare_all-some idx allow_idx deny_idx [] le near e = ([], refl)
compare_all-some idx allow_idx deny_idx (x ∷ xs) le near e =
    let (i, h) = compare_at-some idx allow_idx deny_idx x (omega arith) near e in
    let (is, k) = compare_all-some (idx + 1) allow_idx deny_idx xs (omega arith) near e in
    (i ∷ is, rw (h, k) refl)

netlink_part-some :
    (n allow_idx deny_idx : ℕ) (protos : List ℕ)
    → 1 + n + 2 + length protos ≤ allow_idx
    → allow_idx ≤ 254
    → deny_idx ≡ allow_idx + 1
    → (is : List SockFilter) × (netlink_part n allow_idx deny_idx protos ≡ some is)
unfolding netlink_part off
netlink_part-some n allow_idx deny_idx protos le near e =
    let (is, h) = compare_all-some (1 + n + 2) allow_idx deny_idx protos le (omega arith) e in
    (
      jump jeq_k af_netlink 0 (deny_idx - (1 + n + 1)) ∷ stmt ld_w_abs (arg_lo 2) ∷ is,
      rw h (ground arith),
    )

socket_body-some :
    (block : Bool) (fams protos : List ℕ)
    → length fams + length protos ≤ 250
    → (body : List SockFilter) × (socket_body block fams protos ≡ some body)
unfolding socket_body
socket_body-some true fams protos le =
    let n = length fams in
    let allow_idx = 1 + n + (2 + length protos) in
    let (is, h) =
      compare_all-some 1 allow_idx (allow_idx + 1) fams (omega arith) (omega arith) refl in
    let (js, k) =
      netlink_part-some n allow_idx (allow_idx + 1) protos (omega arith) (omega arith) refl in
    (stmt ld_w_abs (arg_lo 0) ∷ (is ++ (js ++ returns)), rw (h, k) refl)
socket_body-some false fams protos le =
    let allow_idx = 1 + length fams + 0 in
    let (is, h) =
      compare_all-some 1 allow_idx (allow_idx + 1) fams (omega arith) (omega arith) refl in
    (stmt ld_w_abs (arg_lo 0) ∷ (is ++ ([] ++ returns)), rw h refl)

module _ (libc : Libc) (deny_action : ℕ) (sockets : SocketPolicy)
    (few : length sockets.families + length sockets.netlink_protocols ≤ 230) where
  rule_body-some :
      (rule : ArgRule)
      → (body : List SockFilter) × (rule_body libc rule deny_action sockets ≡ some body)
  unfolding rule_body
  rule_body-some clone_no_namespaces = (_, refl)
  rule_body-some clone3_enosys = (_, refl)
  rule_body-some ioctl_refused = (_, refl)
  rule_body-some socket_families =
      let (fs, families, many) = family_list-cons sockets in
      let (ps, protocols, some_protocols) = protocol_list-cons sockets in
      socket_body-some (not sockets.netlink_all) (family_list sockets) (protocol_list sockets)
        (omega (arith, ap length families, ap length protocols, many, some_protocols))
  rule_body-some socketpair_unix = (_, refl)

  -- The length of a body does not depend on a call; any call shows it.
  abbrev some_call : Call
  some_call = record { arch = 0; nr = 0; args = λ i. 0 }

  emit_arg_rule-ok :
      (rule : ArgRule)
      → (p : List SockFilter) × (emit_arg_rule libc rule deny_action sockets ≡ ok p)
        × (length p ≤ 256)
  unfolding emit_arg_rule
  emit_arg_rule-ok rule =
      let (body, h) = rule_body-some rule in
      let b = rule-IsBody libc [] deny_action sockets some_call few rule body h in
      (guarded (rule_nr libc rule) body, rw h refl, omega (arith, b.short))

  rules_part-ok :
      (allow : List ℤ) (rules : List ArgRule)
      → (p : List SockFilter) × (rules_part libc allow deny_action sockets rules ≡ ok p)
        × (length p ≤ 256 * length rules)
  unfolding rules_part
  rules_part-ok allow [] = ([], refl, omega arith)
  rules_part-ok allow (rule ∷ rules) =
      let (q, h, n) = emit_arg_rule-ok rule in
      let (later, k, m) = rules_part-ok allow rules in
      elim (Bool-cases (contains_ℤ allow (pos (rule_nr libc rule)))) [
        | inl hit ↦ (q ++ later, rw (hit, h, k) refl, omega (arith, length-append q later, n, m))
        | inr miss ↦ (later, rw (miss, k) refl, omega (arith, m))
      ]

soft_part-short :
    (libc : Libc) (allow : List ℤ) (deny_action : ℕ) (sockets : SocketPolicy) (softs : List (ℕ × ℕ))
    → length (soft_part libc allow deny_action sockets softs) ≤ 2 * length softs
unfolding soft_part
soft_part-short libc allow deny_action sockets [] = omega arith
soft_part-short libc allow deny_action sockets ((nr, e) ∷ more) =
    let ih = soft_part-short libc allow deny_action sockets more in
    elim (Bool-cases (contains_ℤ allow (pos nr))) [
      | inl hit ↦ rw hit (omega (arith, ih))
      | inr miss ↦ rw miss (omega (arith, ih))
    ]

-- The numbers that a comparison can hold.
abbrev pub AllNumbers : List ℤ → Type 0
AllNumbers [] = Unit
AllNumbers (pos n ∷ xs) = (n < u32_mod) × AllNumbers xs
AllNumbers (negsuc n ∷ xs) = ⊥

allow_part-ok :
    (libc : Libc) (allow : List ℤ)
    → AllNumbers allow
    → (p : List SockFilter) × (allow_part libc allow ≡ ok p) × (length p ≤ 2 * length allow)
unfolding allow_part allow_one
allow_part-ok libc [] all = ([], refl, omega arith)
allow_part-ok libc (pos n ∷ xs) all =
    let (later, k, m) = allow_part-ok libc xs all.1 in
    let fits : ltb (u32_mod - 1) n ≡ false = ground (arith, all.0) in
    elim (Bool-cases (is_rule libc arg_rules n)) [
      | inl hit ↦ (later, rw (fits, hit, k) refl, omega (arith, m))
      | inr miss ↦ (pair n ret_allow ++ later, rw (fits, miss, k) refl, omega (arith, m))
    ]
allow_part-ok libc (negsuc n ∷ xs) all = absurd all

softly_count : (libc : Libc) → length (refused_softly libc) ≡ 18
unfolding refused_softly
softly_count libc = refl

-- For a policy of at most 230 names and an allowlist of at most 1,300 numbers of 32 bits, a filter
-- is built: no assertion on a jump's length fires, and the kernel's limit is not reached.
pub build_program_full-ok :
    (libc : Libc) (allow : List ℤ) (deny_action : ℕ) (sockets : SocketPolicy)
    → length sockets.families + length sockets.netlink_protocols ≤ 230
    → length allow ≤ 1300
    → AllNumbers allow
    → (p : List SockFilter) × (build_program_full libc allow deny_action sockets ≡ ok p)
unfolding build_program_full checked
build_program_full-ok libc allow deny_action sockets few short all =
    let (rules, h, n) = rules_part-ok libc deny_action sockets few allow arg_rules in
    let (allowed, k, m) = allow_part-ok libc allow all in
    let soft = soft_part libc allow deny_action sockets (refused_softly libc) in
    let tail = stmt ret_k deny_action ∷ [] in
    let p = assemble deny_action rules soft allowed in
    let size : ltb 4096 (length p) ≡ false = ground (
      arith,
      n,
      m,
      softly_count libc,
      short,
      soft_part-short libc allow deny_action sockets (refused_softly libc),
      length-append rules (soft ++ (allowed ++ tail)),
      length-append soft (allowed ++ tail),
      length-append allowed tail,
    ) in
    (p, rw (h, k, size) refl)
