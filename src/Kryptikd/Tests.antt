-- ===== src/Kryptikd/Tests.antt =====
-- A filter for three system calls, built and run.
use kryptik_os.Common.{
  true, ℕ, ◌%◌, ◌≡◌, refl, arith, false, List, [], ◌∷◌, some, Result, ok, err, u32_mod, ℤ,
  contains_ℤ, pos, if◌then◌else◌, not, ◌||◌, ◌==◌, leb,
}
use kryptik_os.Kryptikd.Seccomp.{
  Libc, SocketPolicy, SockFilter, Stop, ret_allow, ret_kill_process, audit_arch_x86_64,
  x32_syscall_bit, refused_softly, errno_action, soft_refusal, eperm,
}
use kryptik_os.Kryptikd.Seccomp.Rules.{
  arg_rules, compare_at, compare_all, netlink_part, socket_body, rule_body, emit_arg_rule,
  add_families, add_protocols,
}
use kryptik_os.Kryptikd.Seccomp.Program.{
  rules_part, soft_part, allow_one, allow_part, checked, build_program_full,
}
use kryptik_os.Kryptikd.Seccomp.Machine.{Call, evaluate_args}
use kryptik_os.Kryptikd.Seccomp.Decision.{decide, RulesFit, AllFit, evaluate_args-build}
use kryptik_os.Kryptikd.Seccomp.Widened.{
  widened_for, widened, add_kept, add_calls, opened, widened_for-contains,
}
use kryptik_os.Kryptikd.Seccomp.Supplicant.{
  supplicant_program, opens, refuse, evaluate_args-supplicant,
}
use kryptik_os.Kryptikd.Seccomp.Proxy.{
  ProxyLibc, AllBelow, proxy_allowlist, proxy_action, proxy_program, evaluate_args-proxy,
}
use kryptik_os.Kryptikd.Seccomp.Totality.{AllNumbers, build_program_full-ok}

-- The numbers of x86_64.
abbrev pub linux : Libc
linux = record {
  clone = 56;
  clone3 = 435;
  ioctl = 16;
  socket = 41;
  socketpair = 53;
  inotify_init = 253;
  inotify_init1 = 294;
  setfsuid = 122;
  setfsgid = 123;
  setuid = 105;
  setgid = 106;
  setreuid = 113;
  setregid = 114;
  setresuid = 117;
  setresgid = 119;
  setgroups = 116;
  capset = 126;
  unshare = 272;
  sched_setscheduler = 144;
  sched_setparam = 142;
  sched_setattr = 314;
  ioprio_set = 251;
  quotactl = 179;
  user_notif = 0x7fc00000;
}

abbrev read_clone_socket : List ℤ
read_clone_socket = pos 0 ∷ pos 56 ∷ pos 41 ∷ []

abbrev no_more_sockets : SocketPolicy
no_more_sockets = record { families = []; netlink_protocols = []; netlink_all = false }

-- `unshare(CLONE_NEWUSER)`, which is refused with EPERM.
abbrev call_unshare : Call
call_unshare = record { arch = audit_arch_x86_64; nr = 272; args = λ i. 0x10000000 }

abbrev program_of : Result Stop (List SockFilter) → List SockFilter
program_of (ok p) = p
program_of (err e) = []

abbrev filter : List SockFilter
filter = program_of (build_program_full linux read_clone_socket ret_kill_process no_more_sockets)

pub linux-RulesFit : RulesFit linux arg_rules
linux-RulesFit = ground arith

pub linux-AllFit : AllFit (refused_softly linux)
unfolding refused_softly
linux-AllFit = ground arith

numbers : AllNumbers read_clone_socket
numbers = ground arith

filter-built :
    build_program_full linux read_clone_socket ret_kill_process no_more_sockets ≡ ok filter
unfolding build_program_full rules_part emit_arg_rule rule_body socket_body compare_all add_families
    compare_at add_protocols netlink_part allow_part allow_one checked soft_part refused_softly
filter-built = refl

unshare-refused : evaluate_args filter call_unshare ≡ some (errno_action eperm)
unfolding evaluate_args build_program_full rules_part emit_arg_rule rule_body socket_body
    compare_all add_families compare_at add_protocols netlink_part allow_part allow_one checked
    soft_part refused_softly errno_action soft_refusal
unshare-refused = refl

build_program_full-ok_example :
    (p : List SockFilter) × (build_program_full linux read_clone_socket ret_kill_process
        no_more_sockets
      ≡ ok p)
build_program_full-ok_example =
    build_program_full-ok linux read_clone_socket ret_kill_process no_more_sockets (omega arith)
      (omega arith) numbers

evaluate_args-build_example :
    evaluate_args filter call_unshare
    ≡ decide linux read_clone_socket ret_kill_process no_more_sockets call_unshare
evaluate_args-build_example =
    evaluate_args-build linux read_clone_socket ret_kill_process no_more_sockets call_unshare filter
      linux-RulesFit linux-AllFit (omega arith) filter-built

evaluate_args-supplicant_example :
    evaluate_args (supplicant_program linux) call_unshare
    ≡ some (
        if not (call_unshare.arch == audit_arch_x86_64) || leb x32_syscall_bit call_unshare.nr
        then ret_kill_process
        else if not (call_unshare.nr == linux.socket % u32_mod) || opens call_unshare
        then ret_allow
        else refuse)
evaluate_args-supplicant_example = evaluate_args-supplicant linux call_unshare

-- The numbers of the proxy's calls on x86_64, and FALLOC_FL_PUNCH_HOLE and FALLOC_FL_KEEP_SIZE.
abbrev linux_proxy : ProxyLibc
linux_proxy = record {
  execve = 59;
  arch_prctl = 158;
  set_tid_address = 218;
  rt_sigaction = 13;
  rt_sigprocmask = 14;
  sigaltstack = 131;
  prlimit64 = 302;
  exit_call = 60;
  exit_group = 231;
  brk = 12;
  mmap = 9;
  munmap = 11;
  mremap = 25;
  mprotect = 10;
  madvise = 28;
  poll = 7;
  restart_syscall = 219;
  accept4 = 288;
  socket = 41;
  connect = 42;
  getsockopt = 55;
  recvmsg = 47;
  sendmsg = 46;
  recvfrom = 45;
  sendto = 44;
  read_call = 0;
  write_call = 1;
  pipe2 = 293;
  fcntl = 72;
  ioctl = 16;
  close = 3;
  getrandom = 318;
  clock_gettime = 228;
  geteuid = 107;
  fstatfs = 138;
  fstat = 5;
  fallocate = 285;
  punch_hole = 2;
  keep_size = 1;
}

linux_proxy-AllBelow : AllBelow (proxy_allowlist linux_proxy)
linux_proxy-AllBelow = ground arith

-- `mmap` with PROT_READ | PROT_EXEC, which kills.
abbrev call_mmap : Call
call_mmap = record { arch = audit_arch_x86_64; nr = 9; args = λ i. 5 }

mmap-killed : proxy_action linux_proxy call_mmap ≡ ret_kill_process
mmap-killed = refl

evaluate_args-proxy_example :
    evaluate_args (proxy_program linux_proxy) call_mmap
    ≡ some (
        if not (call_mmap.arch == audit_arch_x86_64) || leb x32_syscall_bit call_mmap.nr
        then ret_kill_process
        else proxy_action linux_proxy call_mmap)
evaluate_args-proxy_example = evaluate_args-proxy linux_proxy call_mmap linux_proxy-AllBelow

-- A policy that adds bind, of a zone that keeps CAP_SYS_CHROOT: read is the base list, mount is
-- denied, and chroot is what the capability opens.
abbrev with_chroot : List (ℕ × List ℤ)
with_chroot = (18, pos 161 ∷ []) ∷ []

bind_widened :
    widened_for with_chroot (pos 0 ∷ []) (pos 165 ∷ []) (pos 49 ∷ []) (18 ∷ [])
    ≡ ok (pos 0 ∷ pos 49 ∷ pos 161 ∷ [])
unfolding widened_for widened add_kept add_calls
bind_widened = refl

widened_for-contains_example :
    (contains_ℤ (pos 0 ∷ pos 49 ∷ pos 161 ∷ []) (pos 49) ≡ (
      contains_ℤ (pos 0 ∷ []) (pos 49)
      || (contains_ℤ (pos 49 ∷ []) (pos 49) || opened with_chroot (18 ∷ []) (pos 49))))
    × (contains_ℤ (pos 49 ∷ []) (pos 49) ≡ true → contains_ℤ (pos 165 ∷ []) (pos 49) ≡ false)
widened_for-contains_example =
    widened_for-contains with_chroot (pos 0 ∷ []) (pos 165 ∷ []) (pos 49 ∷ []) (18 ∷ [])
      (pos 0 ∷ pos 49 ∷ pos 161 ∷ []) (pos 49) bind_widened
