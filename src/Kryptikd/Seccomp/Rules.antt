-- ===== src/Kryptikd/Seccomp/Rules.antt =====
-- `ArgRule` and `emit_arg_rule` of compartments/kryptikd/src/seccomp.rs.
use kryptik_os.Common.{
  and_then, ℕ, ◌+◌, ◌-◌, ◌%◌, Bool, false, not, ◌&&◌, ◌||◌, List, [], ◌∷◌, ◌++◌, Option, none, some,
  Result, ok, ◌>>=◌, ok_or, ltb, ◌==◌, if◌then◌else◌, length, u32_mod,
}
use kryptik_os.Kryptikd.Seccomp.{
  Libc, SocketPolicy, SockFilter, stmt, jump, Stop, panic, ld_w_abs, jeq_k, jgt_k, jge_k, jset_k,
  ret_k, ret_allow, arg_lo, clone_ns_mask, tiocsti, tioclinux, siocethtool, siocsmiireg,
  siocdevprivate, af_unix, af_inet, af_inet6, af_netlink, netlink_route, eafnosupport, enosys,
  eperm, errno_action, soft_refusal,
}

pub data ArgRule : Type 0 where
  clone_no_namespaces clone3_enosys ioctl_refused socket_families socketpair_unix : ArgRule

abbrev pub arg_rules : List ArgRule
arg_rules =
    clone_no_namespaces ∷ clone3_enosys ∷ ioctl_refused ∷ socket_families ∷ socketpair_unix ∷ []

-- `ArgRule::nr`
abbrev pub rule_nr : Libc → ArgRule → ℕ
rule_nr libc clone_no_namespaces = libc.clone
rule_nr libc clone3_enosys = libc.clone3
rule_nr libc ioctl_refused = libc.ioctl
rule_nr libc socket_families = libc.socket
rule_nr libc socketpair_unix = libc.socketpair

abbrev pub contains : List ℕ → ℕ → Bool
contains [] x = false
contains (y ∷ ys) x = y == x || contains ys x

-- The loop over `sockets.families`.
unfoldable pub add_families : List ℕ → List ℕ → List ℕ
add_families fams [] = fams
add_families fams (f ∷ fs) =
    add_families (if not (contains fams f) && not (f == af_netlink) then fams ++ f ∷ [] else fams)
      fs

-- The loop over `sockets.netlink_protocols`.
unfoldable pub add_protocols : List ℕ → List ℕ → List ℕ
add_protocols protos [] = protos
add_protocols protos (p ∷ ps) =
    add_protocols (if not (contains protos p) then protos ++ p ∷ [] else protos) ps

-- `off`: the jump from one index to a later one, which has to fit a byte.
unfoldable pub off : ℕ → ℕ → Option ℕ
off from to =
    if ltb to (from + 1) || ltb 255 (to - (from + 1)) then none else some (to - (from + 1))

-- One comparison of a loop: a hit goes to ALLOW, and a miss of the last one to DENY.
unfoldable pub compare_at : ℕ → ℕ → ℕ → ℕ → Option SockFilter
unfolding off
compare_at idx allow_idx deny_idx x =
    let miss = if idx + 1 == allow_idx then off idx deny_idx else some 0 in
    elim miss [
      | none ↦ none
      | some jf ↦ elim (off idx allow_idx) [ none ↦ none | some jt ↦ some (jump jeq_k x jt jf) ]
    ]

unfoldable pub cons_option : Option SockFilter → Option (List SockFilter) → Option (List SockFilter)
cons_option (some i) (some is) = some (i ∷ is)
cons_option _ _ = none

-- A loop of comparisons from an index on.
unfoldable pub compare_all : ℕ → ℕ → ℕ → List ℕ → Option (List SockFilter)
unfolding cons_option
compare_all idx allow_idx deny_idx [] = some []
compare_all idx allow_idx deny_idx (x ∷ xs) =
    cons_option (compare_at idx allow_idx deny_idx x) (compare_all (idx + 1) allow_idx deny_idx xs)

abbrev pub returns : List SockFilter
returns = stmt ret_k ret_allow ∷ stmt ret_k (errno_action eafnosupport) ∷ []

-- The netlink block: the comparison of the family, and the loop over the protocols.
unfoldable pub netlink_part : ℕ → ℕ → ℕ → List ℕ → Option (List SockFilter)
netlink_part n allow_idx deny_idx protos = and_then (off (1 + n) deny_idx) λ miss.
    and_then (compare_all (1 + n + 2) allow_idx deny_idx protos)
      λ hits. some (jump jeq_k af_netlink 0 miss ∷ stmt ld_w_abs (arg_lo 2) ∷ hits)

-- The body of the socket rule, by its two lists and whether netlink has a block of its own.
unfoldable pub socket_body : Bool → List ℕ → List ℕ → Option (List SockFilter)
socket_body netlink_block fams protos =
    let n = length fams in
    let nl_len = if netlink_block then 2 + length protos else 0 in
    let allow_idx = 1 + n + nl_len in
    let deny_idx = allow_idx + 1 in
    and_then (compare_all 1 allow_idx deny_idx fams) λ hits.
      and_then (if netlink_block then netlink_part n allow_idx deny_idx protos else some [])
        λ block. some (stmt ld_w_abs (arg_lo 0) ∷ (hits ++ (block ++ returns)))

-- The families and the protocols that a policy allows.
abbrev pub family_list : SocketPolicy → List ℕ
family_list s =
    let fams = add_families (af_unix ∷ af_inet ∷ af_inet6 ∷ []) s.families in
    if s.netlink_all then fams ++ af_netlink ∷ [] else fams

abbrev pub protocol_list : SocketPolicy → List ℕ
protocol_list s = add_protocols (netlink_route ∷ []) s.netlink_protocols

-- The body of a rule.
unfoldable pub rule_body : Libc → ArgRule → ℕ → SocketPolicy → Option (List SockFilter)
rule_body libc clone_no_namespaces deny_action sockets = some (
    stmt ld_w_abs (arg_lo 0)
    ∷ jump jset_k clone_ns_mask 0 1
    ∷ stmt ret_k (soft_refusal libc eperm deny_action)
    ∷ stmt ret_k ret_allow
    ∷ [])
rule_body libc clone3_enosys deny_action sockets = some (stmt ret_k (errno_action enosys) ∷ [])
rule_body libc ioctl_refused deny_action sockets = some (
    stmt ld_w_abs (arg_lo 1)
    ∷ jump jeq_k tiocsti 7 0
    ∷ jump jeq_k tioclinux 6 0
    ∷ jump jeq_k siocethtool 4 0
    ∷ jump jeq_k siocsmiireg 3 0
    ∷ jump jge_k siocdevprivate 0 1
    ∷ jump jgt_k (siocdevprivate + 15) 0 1
    ∷ stmt ret_k ret_allow
    ∷ stmt ret_k (soft_refusal libc eperm deny_action)
    ∷ stmt ret_k deny_action
    ∷ [])
rule_body libc socket_families deny_action sockets =
    socket_body (not sockets.netlink_all) (family_list sockets) (protocol_list sockets)
rule_body libc socketpair_unix deny_action sockets = some (
    stmt ld_w_abs (arg_lo 0)
    ∷ jump jeq_k af_unix 0 1
    ∷ stmt ret_k ret_allow
    ∷ stmt ret_k (errno_action eafnosupport)
    ∷ [])

-- A body behind the comparison of the syscall number that skips it.
abbrev pub guarded : ℕ → List SockFilter → List SockFilter
guarded nr body = jump jeq_k (nr % u32_mod) 0 (length body % 256) ∷ body

-- `emit_arg_rule`: what it appends to the program.
unfoldable pub emit_arg_rule : Libc → ArgRule → ℕ → SocketPolicy → Result Stop (List SockFilter)
emit_arg_rule libc rule deny_action sockets = do
  body ← ok_or (rule_body libc rule deny_action sockets) panic
  ok (guarded (rule_nr libc rule) body)
