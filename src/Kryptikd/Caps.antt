-- ===== src/Kryptikd/Caps.antt =====
-- compartments/kryptikd/src/caps.rs: the capabilities by number, and which a policy may keep.
use kryptik_os.Common.{ℕ, Bool, true, ◌&&◌, List, [], ◌∷◌, Option, Bytes, ascii}
use kryptik_os.Kryptikd.Seccomp.Rules.{contains}
use kryptik_os.Kryptikd.Seccomp.Names.{number_in}

abbrev pub cap_chown : ℕ
cap_chown = 0

abbrev pub cap_dac_read_search : ℕ
cap_dac_read_search = 2

abbrev pub cap_fowner : ℕ
cap_fowner = 3

abbrev pub cap_fsetid : ℕ
cap_fsetid = 4

abbrev pub cap_kill : ℕ
cap_kill = 5

abbrev pub cap_setgid : ℕ
cap_setgid = 6

abbrev pub cap_setuid : ℕ
cap_setuid = 7

abbrev pub cap_net_bind_service : ℕ
cap_net_bind_service = 10

abbrev pub cap_net_broadcast : ℕ
cap_net_broadcast = 11

abbrev pub cap_net_admin : ℕ
cap_net_admin = 12

abbrev pub cap_net_raw : ℕ
cap_net_raw = 13

abbrev pub cap_ipc_lock : ℕ
cap_ipc_lock = 14

abbrev pub cap_sys_chroot : ℕ
cap_sys_chroot = 18

abbrev pub cap_sys_nice : ℕ
cap_sys_nice = 23

-- `KEEP`
abbrev pub kept_always : ℕ
kept_always = cap_net_bind_service

-- `KEEPABLE`
abbrev pub keepable : List ℕ
keepable =
    cap_net_bind_service ∷ cap_net_admin ∷ cap_net_raw ∷ cap_net_broadcast ∷ cap_sys_nice
    ∷ cap_ipc_lock ∷ cap_kill ∷ cap_chown ∷ cap_fowner ∷ cap_fsetid ∷ cap_dac_read_search
    ∷ cap_setuid ∷ cap_setgid ∷ cap_sys_chroot ∷ []

-- `PRIVSEP`
abbrev pub privsep : List ℕ
privsep = cap_setuid ∷ cap_setgid ∷ cap_sys_chroot ∷ []

-- `NIC_ONLY`
abbrev pub nic_only : List ℕ
nic_only = cap_net_admin ∷ cap_net_raw ∷ cap_setuid ∷ cap_setgid ∷ cap_sys_chroot ∷ []

-- `CAP_NAMES`
abbrev pub cap_names : List (Bytes × ℕ)
cap_names =
    (ascii "CAP_CHOWN", 0)
    ∷ (ascii "CAP_DAC_OVERRIDE", 1)
    ∷ (ascii "CAP_DAC_READ_SEARCH", 2)
    ∷ (ascii "CAP_FOWNER", 3)
    ∷ (ascii "CAP_FSETID", 4)
    ∷ (ascii "CAP_KILL", 5)
    ∷ (ascii "CAP_SETGID", 6)
    ∷ (ascii "CAP_SETUID", 7)
    ∷ (ascii "CAP_SETPCAP", 8)
    ∷ (ascii "CAP_LINUX_IMMUTABLE", 9)
    ∷ (ascii "CAP_NET_BIND_SERVICE", 10)
    ∷ (ascii "CAP_NET_BROADCAST", 11)
    ∷ (ascii "CAP_NET_ADMIN", 12)
    ∷ (ascii "CAP_NET_RAW", 13)
    ∷ (ascii "CAP_IPC_LOCK", 14)
    ∷ (ascii "CAP_IPC_OWNER", 15)
    ∷ (ascii "CAP_SYS_MODULE", 16)
    ∷ (ascii "CAP_SYS_RAWIO", 17)
    ∷ (ascii "CAP_SYS_CHROOT", 18)
    ∷ (ascii "CAP_SYS_PTRACE", 19)
    ∷ (ascii "CAP_SYS_PACCT", 20)
    ∷ (ascii "CAP_SYS_ADMIN", 21)
    ∷ (ascii "CAP_SYS_BOOT", 22)
    ∷ (ascii "CAP_SYS_NICE", 23)
    ∷ (ascii "CAP_SYS_RESOURCE", 24)
    ∷ (ascii "CAP_SYS_TIME", 25)
    ∷ (ascii "CAP_SYS_TTY_CONFIG", 26)
    ∷ (ascii "CAP_MKNOD", 27)
    ∷ (ascii "CAP_LEASE", 28)
    ∷ (ascii "CAP_AUDIT_WRITE", 29)
    ∷ (ascii "CAP_AUDIT_CONTROL", 30)
    ∷ (ascii "CAP_SETFCAP", 31)
    ∷ (ascii "CAP_MAC_OVERRIDE", 32)
    ∷ (ascii "CAP_MAC_ADMIN", 33)
    ∷ (ascii "CAP_SYSLOG", 34)
    ∷ (ascii "CAP_WAKE_ALARM", 35)
    ∷ (ascii "CAP_BLOCK_SUSPEND", 36)
    ∷ (ascii "CAP_AUDIT_READ", 37)
    ∷ (ascii "CAP_PERFMON", 38)
    ∷ (ascii "CAP_BPF", 39)
    ∷ (ascii "CAP_CHECKPOINT_RESTORE", 40)
    ∷ []

abbrev pub cap_by_name : Bytes → Option ℕ
cap_by_name name = number_in cap_names name

abbrev pub all_in : List ℕ → List ℕ → Bool
all_in [] keep = true
all_in (c ∷ cs) keep = contains keep c && all_in cs keep

abbrev pub keeps_privsep : List ℕ → Bool
keeps_privsep keep = all_in privsep keep
