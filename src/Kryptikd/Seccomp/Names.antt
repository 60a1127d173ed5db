-- ===== src/Kryptikd/Seccomp/Names.antt =====
-- The calls that compartments/kryptikd/src/seccomp.rs names: the base allowlist, the denied list
-- and the calls a policy may add. The libc crate's number of a name is an argument.
pub mod Separate
use kryptik_os.Common.{
  ℕ, Bool, List, [], ◌∷◌, ◌++◌, map, Option, none, some, if◌then◌else◌, Bytes, ascii, eq_bytes,
  split_whitespace, words_from, ℤ, pos, contains_ℤ, eq_ℤ,
}

-- A list of names, as the source has them on a line.
unfoldable pub named : Bytes → List Bytes
unfolding words_from
named line = split_whitespace line

-- The names of `BASE_ALLOWLIST`, less the one that the libc crate does not have.
unfoldable pub base_names : List Bytes
base_names =
    named (ascii "read write readv writev pread64 pwrite64 preadv pwritev open openat")
    ++ named (ascii "close lseek stat fstat lstat newfstatat statx access faccessat")
    ++ named (ascii "faccessat2 getdents64 readlink readlinkat fcntl ioctl dup dup2 dup3")
    ++ named (ascii "pipe pipe2 fsync fdatasync ftruncate truncate getcwd chdir fchdir")
    ++ named (ascii "rename renameat renameat2 mkdir mkdirat rmdir unlink unlinkat symlink")
    ++ named (ascii "symlinkat link linkat umask flock fallocate creat openat2 close_range")
    ++ named (ascii "mknod mknodat chmod fchmod fchmodat fchmodat2 chown fchown lchown")
    ++ named (ascii "fchownat copy_file_range sendfile splice fadvise64 readahead utimensat")
    ++ named (ascii "futimesat sync syncfs getxattr lgetxattr fgetxattr listxattr")
    ++ named (ascii "llistxattr flistxattr setxattr lsetxattr fsetxattr removexattr")
    ++ named (ascii "lremovexattr fremovexattr mmap munmap mremap brk madvise mlock munlock")
    ++ named (ascii "memfd_create msync mprotect clone clone3 fork vfork execve execveat")
    ++ named (ascii "exit exit_group wait4 waitid pidfd_open pidfd_send_signal getpid")
    ++ named (ascii "getppid gettid getuid geteuid getgid getegid getgroups getpgrp getpgid")
    ++ named (ascii "setpgid getsid setsid getrusage getrlimit prlimit64 sched_yield")
    ++ named (ascii "sched_getaffinity sched_setaffinity getcpu capget set_tid_address")
    ++ named (ascii "set_robust_list get_robust_list futex arch_prctl membarrier")
    ++ named (ascii "getpriority setpriority sched_getparam sched_getscheduler")
    ++ named (ascii "sched_get_priority_max sched_get_priority_min sched_getattr ioprio_get")
    ++ named (ascii "getresuid getresgid rt_sigaction rt_sigprocmask rt_sigreturn")
    ++ named (ascii "rt_sigpending rt_sigsuspend rt_sigtimedwait sigaltstack kill tgkill")
    ++ named (ascii "tkill restart_syscall clock_gettime clock_getres clock_nanosleep")
    ++ named (ascii "gettimeofday nanosleep times alarm setitimer getitimer pause")
    ++ named (ascii "timer_create timer_settime timer_gettime timer_getoverrun timer_delete")
    ++ named (ascii "poll ppoll select pselect6 epoll_create epoll_create1 epoll_ctl")
    ++ named (ascii "epoll_wait epoll_pwait epoll_pwait2 eventfd eventfd2 signalfd")
    ++ named (ascii "signalfd4 timerfd_create timerfd_settime timerfd_gettime")
    ++ named (ascii "inotify_add_watch inotify_rm_watch socket socketpair bind listen")
    ++ named (ascii "accept accept4 connect shutdown getsockname getpeername setsockopt")
    ++ named (ascii "getsockopt sendto recvfrom sendmsg recvmsg sendmmsg recvmmsg uname")
    ++ named (ascii "sysinfo getrandom prctl rseq statfs fstatfs")

-- `DENIED_NAMES`
unfoldable pub denied_names : List Bytes
denied_names =
    named (ascii "ptrace process_vm_readv process_vm_writev mount umount2 pivot_root")
    ++ named (ascii "chroot unshare setns bpf perf_event_open userfaultfd keyctl add_key")
    ++ named (ascii "request_key init_module finit_module delete_module kexec_load reboot")
    ++ named (ascii "swapon swapoff setuid setgid ioperm iopl quotactl open_by_handle_at")
    ++ named (ascii "name_to_handle_at fsopen fsconfig fsmount fspick move_mount open_tree")
    ++ named (ascii "mount_setattr io_uring_setup io_uring_enter io_uring_register")
    ++ named (ascii "pidfd_getfd kcmp sethostname setdomainname setgroups setresuid")
    ++ named (ascii "setresgid setreuid setregid setfsuid setfsgid capset personality")

-- The names of `ADDABLE`.
unfoldable pub addable_names : List Bytes
addable_names =
    named (ascii "acct adjtimex clock_adjtime clock_settime fanotify_init fanotify_mark")
    ++ named (ascii "inotify_init inotify_init1 ioprio_set landlock_add_rule")
    ++ named (ascii "landlock_create_ruleset landlock_restrict_self mincore mlock2 mlockall")
    ++ named (ascii "mq_getsetattr mq_notify mq_open mq_timedreceive mq_timedsend mq_unlink")
    ++ named (ascii "msgctl msgget msgrcv msgsnd munlockall process_madvise")
    ++ named (ascii "remap_file_pages rt_sigqueueinfo rt_tgsigqueueinfo sched_setattr")
    ++ named (ascii "sched_setparam sched_setscheduler seccomp semctl semget semop")
    ++ named (ascii "settimeofday shmat shmctl shmdt shmget syslog vhangup")

abbrev pub map_shadow_stack : Bytes × ℤ
map_shadow_stack = (ascii "map_shadow_stack", pos 453)

module _ (number : Bytes → ℤ) where
  -- `by_name!`
  abbrev pub by_name : List Bytes → List (Bytes × ℤ)
  by_name [] = []
  by_name (n ∷ ns) = (n, number n) ∷ by_name ns

  -- `BASE_NAMES`
  abbrev pub base_table : List (Bytes × ℤ)
  base_table = by_name base_names ++ map_shadow_stack ∷ []

  -- `names`
  abbrev pub names : List (Bytes × ℤ)
  names = by_name denied_names ++ (base_table ++ by_name addable_names)

  abbrev pub numbers : List (Bytes × ℤ) → List ℤ
  numbers [] = []
  numbers ((n, v) ∷ more) = v ∷ numbers more

  -- `BASE_ALLOWLIST`
  abbrev pub base_allowlist : List ℤ
  base_allowlist = numbers base_table

  -- `is_denied`
  abbrev pub is_denied : ℤ → Bool
  is_denied nr = contains_ℤ (numbers (by_name denied_names)) nr

-- The number of the first pair of a name.
abbrev pub number_in : {A : Type 0} → List (Bytes × A) → Bytes → Option A
number_in [] name = none
number_in ((n, v) ∷ more) name = if eq_bytes n name then some v else number_in more name

-- `syscall_by_name`
abbrev pub syscall_by_name : (Bytes → ℤ) → Bytes → Option ℤ
syscall_by_name number name = number_in (names number) name
