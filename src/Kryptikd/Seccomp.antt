-- ===== src/Kryptikd/Seccomp.antt =====
-- compartments/kryptikd/src/seccomp.rs: the syscall filter of a zone, as a program for classic
-- BPF. The syscall numbers and SECCOMP_RET_USER_NOTIF are the libc crate's: they are parameters.
pub mod Rules
pub mod Program
pub mod Machine
pub mod Blocks
pub mod Sockets
pub mod Decision
pub mod Totality
pub mod Names
pub mod Widened
pub mod Supplicant
pub mod Proxy
pub mod Zone
use Prim.Native.Nat.{bit_and, bit_or}
use kryptik_os.Common.{ℕ, ◌+◌, ◌*◌, ◌%◌, ◌^◌, ◌-◌, List, [], ◌∷◌, Bool, ◌==◌, if◌then◌else◌, ℤ}

-- What seccomp.rs takes from the libc crate.
pub record Libc : Type 0 where
  pub clone : ℕ
  pub clone3 : ℕ
  pub ioctl : ℕ
  pub socket : ℕ
  pub socketpair : ℕ
  pub inotify_init : ℕ
  pub inotify_init1 : ℕ
  pub setfsuid : ℕ
  pub setfsgid : ℕ
  pub setuid : ℕ
  pub setgid : ℕ
  pub setreuid : ℕ
  pub setregid : ℕ
  pub setresuid : ℕ
  pub setresgid : ℕ
  pub setgroups : ℕ
  pub capset : ℕ
  pub unshare : ℕ
  pub sched_setscheduler : ℕ
  pub sched_setparam : ℕ
  pub sched_setattr : ℕ
  pub ioprio_set : ℕ
  pub quotactl : ℕ
  pub user_notif : ℕ

abbrev pub audit_arch_x86_64 : ℕ
audit_arch_x86_64 = 0xc000003e

abbrev pub x32_syscall_bit : ℕ
x32_syscall_bit = 0x40000000

-- The opcodes in use: `BPF_LD | BPF_W | BPF_ABS`, `BPF_JMP | … | BPF_K` and `BPF_RET | BPF_K`.
abbrev pub ld_w_abs : ℕ
ld_w_abs = bit_or (bit_or 0x00 0x00) 0x20

abbrev pub jeq_k : ℕ
jeq_k = bit_or (bit_or 0x05 0x10) 0x00

abbrev pub jgt_k : ℕ
jgt_k = bit_or (bit_or 0x05 0x20) 0x00

abbrev pub jge_k : ℕ
jge_k = bit_or (bit_or 0x05 0x30) 0x00

abbrev pub jset_k : ℕ
jset_k = bit_or (bit_or 0x05 0x40) 0x00

abbrev pub ret_k : ℕ
ret_k = bit_or 0x06 0x00

abbrev pub ret_kill_process : ℕ
ret_kill_process = 0x80000000

abbrev pub ret_allow : ℕ
ret_allow = 0x7fff0000

abbrev pub ret_errno : ℕ
ret_errno = 0x00050000

abbrev pub off_nr : ℕ
off_nr = 0

abbrev pub off_arch : ℕ
off_arch = 4

abbrev pub arg_lo : ℕ → ℕ
arg_lo i = 16 + 8 * i

abbrev pub clone_ns_mask : ℕ
clone_ns_mask = 0x7e020000

abbrev pub tiocsti : ℕ
tiocsti = 0x5412

abbrev pub tioclinux : ℕ
tioclinux = 0x541c

abbrev pub siocethtool : ℕ
siocethtool = 0x8946

abbrev pub siocsmiireg : ℕ
siocsmiireg = 0x8949

abbrev pub siocdevprivate : ℕ
siocdevprivate = 0x89f0

abbrev pub af_unix : ℕ
af_unix = 1

abbrev pub af_inet : ℕ
af_inet = 2

abbrev pub af_inet6 : ℕ
af_inet6 = 10

abbrev pub af_netlink : ℕ
af_netlink = 16

abbrev pub netlink_route : ℕ
netlink_route = 0

abbrev pub eafnosupport : ℕ
eafnosupport = 97

abbrev pub enosys : ℕ
enosys = 38

abbrev pub eperm : ℕ
eperm = 1

pub record SocketPolicy : Type 0 where
  pub families : List ℕ
  pub netlink_protocols : List ℕ
  pub netlink_all : Bool

pub record SockFilter : Type 0 where
  pub code : ℕ
  pub jt : ℕ
  pub jf : ℕ
  pub k : ℕ

abbrev pub stmt : ℕ → ℕ → SockFilter
stmt code k = record { code = code; jt = 0; jf = 0; k = k }

abbrev pub jump : ℕ → ℕ → ℕ → ℕ → SockFilter
jump code k jt jf = record { code = code; jt = jt; jf = jf; k = k }

pub data SeccompError : Type 0 where
  too_many_rules : ℕ → SeccompError
  bad_syscall_number denied : ℤ → SeccompError

-- How building a program stops: by an error, or by the assertion on a jump's length.
pub data Stop : Type 0 where
  panic : Stop
  refused : SeccompError → Stop

-- `SECCOMP_RET_ERRNO | (e & 0xffff)`
unfoldable pub errno_action : ℕ → ℕ
errno_action e = bit_or ret_errno (bit_and e 0xffff)

unfoldable pub soft_refusal : Libc → ℕ → ℕ → ℕ
soft_refusal libc e deny_action =
    if deny_action == libc.user_notif then deny_action else errno_action e

unfoldable pub refused_softly : Libc → List (ℕ × ℕ)
refused_softly libc =
    (libc.inotify_init, enosys)
    ∷ (libc.inotify_init1, enosys)
    ∷ (libc.setfsuid, eperm)
    ∷ (libc.setfsgid, eperm)
    ∷ (libc.setuid, eperm)
    ∷ (libc.setgid, eperm)
    ∷ (libc.setreuid, eperm)
    ∷ (libc.setregid, eperm)
    ∷ (libc.setresuid, eperm)
    ∷ (libc.setresgid, eperm)
    ∷ (libc.setgroups, eperm)
    ∷ (libc.capset, eperm)
    ∷ (libc.unshare, eperm)
    ∷ (libc.sched_setscheduler, eperm)
    ∷ (libc.sched_setparam, eperm)
    ∷ (libc.sched_setattr, eperm)
    ∷ (libc.ioprio_set, eperm)
    ∷ (libc.quotactl, eperm)
    ∷ []
