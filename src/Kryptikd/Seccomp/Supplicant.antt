-- ===== src/Kryptikd/Seccomp/Supplicant.antt =====
-- `supplicant_program` of compartments/kryptikd/src/seccomp.rs: the filter of wpa_supplicant,
-- which decides its sockets and leaves every other call to the zone's.
use Prim.Native.Nat.{bit_and, bit_or}
use kryptik_os.Common.{
  ℕ, ◌-◌, ◌%◌, ◌≡◌, arith, Bool, not, ◌&&◌, ◌||◌, List, [], ◌∷◌, some, leb, ◌==◌, if◌then◌else◌,
  u32_mod, Bool-cases, inl, inr, ◌∙◌,
}
use kryptik_os.Kryptikd.Seccomp.{
  Libc, SockFilter, stmt, jump, ld_w_abs, jeq_k, jge_k, jset_k, ret_k, ret_allow, ret_errno,
  ret_kill_process, off_arch, off_nr, arg_lo, audit_arch_x86_64, x32_syscall_bit, af_unix, af_inet,
  af_netlink, netlink_route, eperm,
}
use kryptik_os.Kryptikd.Seccomp.Machine.{Call, run, evaluate_args}
use kryptik_os.Kryptikd.Seccomp.Blocks.{low, prologue-run, if-some}

abbrev pub af_packet : ℕ
af_packet = 17

abbrev pub netlink_generic : ℕ
netlink_generic = 16

abbrev pub sock_dgram : ℕ
sock_dgram = 2

-- The type of a datagram socket with SOCK_CLOEXEC and SOCK_NONBLOCK.
abbrev pub sock_dgram_flags : ℕ
sock_dgram_flags = bit_or (bit_or sock_dgram 0x80000) 0x800

abbrev pub refuse : ℕ
refuse = bit_or ret_errno eperm

unfoldable pub supplicant_program : Libc → List SockFilter
supplicant_program libc =
    stmt ld_w_abs off_arch
    ∷ jump jeq_k audit_arch_x86_64 1 0
    ∷ stmt ret_k ret_kill_process
    ∷ stmt ld_w_abs off_nr
    ∷ jump jge_k x32_syscall_bit 0 1
    ∷ stmt ret_k ret_kill_process
    ∷ jump jeq_k (libc.socket % u32_mod) 1 0
    ∷ stmt ret_k ret_allow
    ∷ stmt ld_w_abs (arg_lo 0)
    ∷ jump jeq_k af_unix 9 0
    ∷ jump jeq_k af_packet 8 0
    ∷ jump jeq_k af_netlink 1 0
    ∷ jump jeq_k af_inet 3 7
    ∷ stmt ld_w_abs (arg_lo 2)
    ∷ jump jeq_k netlink_route 4 0
    ∷ jump jeq_k netlink_generic 3 4
    ∷ stmt ld_w_abs (arg_lo 1)
    ∷ jump jset_k (u32_mod - 1 - sock_dgram_flags) 2 0
    ∷ jump jset_k sock_dgram 0 1
    ∷ stmt ret_k ret_allow
    ∷ stmt ret_k refuse
    ∷ []

-- The sockets of the supplicant.
abbrev pub opens : Call → Bool
opens c =
    let family = low c 0 in
    let type = low c 1 in
    let protocol = low c 2 in
    family == af_unix
    || (family == af_packet
        || (family == af_netlink && (protocol == netlink_route || protocol == netlink_generic)
            || family == af_inet
              && (bit_and type (u32_mod - 1 - sock_dgram_flags) == 0
                  && not (bit_and type sock_dgram == 0))))

-- The type of an AF_INET socket, the protocol of a netlink one, and the family of any.
abbrev tail : List SockFilter
tail = stmt ret_k ret_allow ∷ stmt ret_k refuse ∷ []

abbrev types : List SockFilter
types =
    stmt ld_w_abs (arg_lo 1)
    ∷ jump jset_k (u32_mod - 1 - sock_dgram_flags) 2 0
    ∷ jump jset_k sock_dgram 0 1
    ∷ tail

abbrev protocols : List SockFilter
protocols =
    stmt ld_w_abs (arg_lo 2) ∷ jump jeq_k netlink_route 4 0 ∷ jump jeq_k netlink_generic 3 4 ∷ types

abbrev families : List SockFilter
families =
    stmt ld_w_abs (arg_lo 0)
    ∷ jump jeq_k af_unix 9 0
    ∷ jump jeq_k af_packet 8 0
    ∷ jump jeq_k af_netlink 1 0
    ∷ jump jeq_k af_inet 3 7
    ∷ protocols

types-run :
    (c : Call) (acc : ℕ)
    → run c 0 types acc
      ≡ some (
          if bit_and (low c 1) (u32_mod - 1 - sock_dgram_flags) == 0
            && not (bit_and (low c 1) sock_dgram == 0)
          then ret_allow
          else refuse)
unfolding run
types-run c acc = ground arith

protocols-run :
    (c : Call) (acc : ℕ)
    → run c 0 protocols acc
      ≡ some (if low c 2 == netlink_route || low c 2 == netlink_generic then ret_allow else refuse)
unfolding run
protocols-run c acc = ground arith

families-run :
    (c : Call) (acc : ℕ)
    → run c 0 families acc ≡ (
        if low c 0 == af_unix || low c 0 == af_packet
        then some ret_allow
        else if low c 0 == af_netlink
        then run c 0 protocols (low c 0)
        else if low c 0 == af_inet
        then run c 0 types (low c 0)
        else some refuse)
unfolding run
families-run c acc = elim (Bool-cases (low c 0 == af_unix)) [
  | inl hit ↦ ground (arith, hit)
  | inr not_unix ↦ elim (Bool-cases (low c 0 == af_packet)) [
    | inl hit ↦ ground (arith, not_unix, hit)
    | inr not_packet ↦ elim (Bool-cases (low c 0 == af_netlink)) [
      | inl hit ↦ ground (arith, not_unix, not_packet, hit)
      | inr not_netlink ↦ elim (Bool-cases (low c 0 == af_inet)) [
        | inl hit ↦ ground (arith, not_unix, not_packet, not_netlink, hit)
        | inr miss ↦ ground (arith, not_unix, not_packet, not_netlink, miss)
      ]
    ]
  ]
]

families-opens :
    (c : Call) (acc : ℕ) → run c 0 families acc ≡ some (if opens c then ret_allow else refuse)
families-opens c acc =
    ground (arith, families-run c acc, protocols-run c (low c 0), types-run c (low c 0))

socket-run :
    (c : Call) (nr : ℕ)
    → run c 0 (jump jeq_k nr 1 0 ∷ stmt ret_k ret_allow ∷ families) c.nr
      ≡ some (if not (c.nr == nr) || opens c then ret_allow else refuse)
unfolding run
socket-run c nr = ground (arith, families-opens c c.nr)

-- The supplicant's filter kills foreign calls, allows every call but socket, and of the sockets
-- those of `opens`; the others fail with EPERM.
pub evaluate_args-supplicant :
    (libc : Libc) (c : Call)
    → evaluate_args (supplicant_program libc) c
      ≡ some (
          if not (c.arch == audit_arch_x86_64) || leb x32_syscall_bit c.nr
          then ret_kill_process
          else if not (c.nr == libc.socket % u32_mod) || opens c
          then ret_allow
          else refuse)
unfolding evaluate_args supplicant_program
evaluate_args-supplicant libc c =
    prologue-run c ret_kill_process
      (jump jeq_k (libc.socket % u32_mod) 1 0 ∷ stmt ret_k ret_allow ∷ families)
    ∙ rw (socket-run c (libc.socket % u32_mod)) (if-some _ _ _)
