-- ===== src/Kryptikd/Seccomp/Proxy.antt =====
-- `proxy_program` of compartments/kryptikd/src/seccomp.rs: the filter of the Wayland proxy. The
-- system calls' numbers and fallocate's flags are the libc crate's: they are parameters.
use Prim.Native.Nat.{bit_and, bit_or}
use kryptik_os.Common.{
  ℕ, ◌%◌, ◌<◌, ◌≡◌, refl, sym, ap, ◌∙◌, arith, Bool, true, false, not, ◌&&◌, ◌||◌, List, [], ◌∷◌,
  ◌++◌, Option, none, some, leb, ◌==◌, if◌then◌else◌, u32_mod, length, get_elem?, zero, suc,
}
use mathlib.Core.Option.{some-injective}
use kryptik_os.Kryptikd.Seccomp.{
  SockFilter, stmt, jump, ld_w_abs, jeq_k, jset_k, ret_k, ret_allow, ret_kill_process, arg_lo,
  audit_arch_x86_64, x32_syscall_bit, af_unix,
}
use kryptik_os.Kryptikd.Seccomp.Rules.{guarded, contains}
use kryptik_os.Kryptikd.Seccomp.Program.{pair, prologue}
use kryptik_os.Kryptikd.Seccomp.Machine.{Call, run, evaluate_args}
use kryptik_os.Kryptikd.Seccomp.Blocks.{
  low, or_else, Decides, Decides-nil, Decides-append, Decides-pair, Decides-guarded, Returns,
  prologue-run, kill-run, if-some,
}

-- What the filter takes from the libc crate: the numbers of `PROXY_ALLOWLIST`, in its order, and
-- the flags of a punch.
pub record ProxyLibc : Type 0 where
  pub execve : ℕ
  pub arch_prctl : ℕ
  pub set_tid_address : ℕ
  pub rt_sigaction : ℕ
  pub rt_sigprocmask : ℕ
  pub sigaltstack : ℕ
  pub prlimit64 : ℕ
  pub exit_call : ℕ
  pub exit_group : ℕ
  pub brk : ℕ
  pub mmap : ℕ
  pub munmap : ℕ
  pub mremap : ℕ
  pub mprotect : ℕ
  pub madvise : ℕ
  pub poll : ℕ
  pub restart_syscall : ℕ
  pub accept4 : ℕ
  pub socket : ℕ
  pub connect : ℕ
  pub getsockopt : ℕ
  pub recvmsg : ℕ
  pub sendmsg : ℕ
  pub recvfrom : ℕ
  pub sendto : ℕ
  pub read_call : ℕ
  pub write_call : ℕ
  pub pipe2 : ℕ
  pub fcntl : ℕ
  pub ioctl : ℕ
  pub close : ℕ
  pub getrandom : ℕ
  pub clock_gettime : ℕ
  pub geteuid : ℕ
  pub fstatfs : ℕ
  pub fstat : ℕ
  pub fallocate : ℕ
  pub punch_hole : ℕ
  pub keep_size : ℕ

abbrev pub fionbio : ℕ
fionbio = 0x5421

abbrev pub prot_exec : ℕ
prot_exec = 0x4

abbrev pub no_exec : List SockFilter
no_exec =
    stmt ld_w_abs (arg_lo 2)
    ∷ jump jset_k prot_exec 0 1
    ∷ stmt ret_k ret_kill_process
    ∷ stmt ret_k ret_allow
    ∷ []

-- An argument that has to be one number.
abbrev pub only : ℕ → ℕ → List SockFilter
only i k =
    stmt ld_w_abs (arg_lo i)
    ∷ jump jeq_k k 0 1
    ∷ stmt ret_k ret_allow
    ∷ stmt ret_k ret_kill_process
    ∷ []

abbrev pub punch : ProxyLibc → ℕ
punch libc = bit_or libc.punch_hole libc.keep_size % u32_mod

abbrev pub proxy_rules : ProxyLibc → List (ℕ × List SockFilter)
proxy_rules libc =
    (libc.socket, only 0 af_unix)
    ∷ (libc.ioctl, only 1 fionbio)
    ∷ (libc.sendto, only 5 0)
    ∷ (libc.fallocate, only 1 (punch libc))
    ∷ (libc.mmap, no_exec)
    ∷ (libc.mprotect, no_exec)
    ∷ []

-- The loop over the rules.
unfoldable pub proxy_blocks : List (ℕ × List SockFilter) → List SockFilter
proxy_blocks [] = []
proxy_blocks ((nr, body) ∷ rules) = guarded nr body ++ proxy_blocks rules

abbrev pub has_rule : List (ℕ × List SockFilter) → ℕ → Bool
has_rule [] nr = false
has_rule ((r, body) ∷ rules) nr = r == nr || has_rule rules nr

-- The loop over the allowlist.
unfoldable pub proxy_allowed : List (ℕ × List SockFilter) → List ℕ → List SockFilter
proxy_allowed rules [] = []
proxy_allowed rules (nr ∷ more) =
    (if not (has_rule rules nr) then pair (nr % u32_mod) ret_allow else [])
    ++ proxy_allowed rules more

-- `PROXY_ALLOWLIST`
abbrev pub proxy_allowlist : ProxyLibc → List ℕ
proxy_allowlist libc =
    libc.execve ∷ libc.arch_prctl ∷ libc.set_tid_address ∷ libc.rt_sigaction ∷ libc.rt_sigprocmask
    ∷ libc.sigaltstack ∷ libc.prlimit64 ∷ libc.exit_call ∷ libc.exit_group ∷ libc.brk ∷ libc.mmap
    ∷ libc.munmap ∷ libc.mremap ∷ libc.mprotect ∷ libc.madvise ∷ libc.poll ∷ libc.restart_syscall
    ∷ libc.accept4 ∷ libc.socket ∷ libc.connect ∷ libc.getsockopt ∷ libc.recvmsg ∷ libc.sendmsg
    ∷ libc.recvfrom ∷ libc.sendto ∷ libc.read_call ∷ libc.write_call ∷ libc.pipe2 ∷ libc.fcntl
    ∷ libc.ioctl ∷ libc.close ∷ libc.getrandom ∷ libc.clock_gettime ∷ libc.geteuid ∷ libc.fstatfs
    ∷ libc.fstat ∷ libc.fallocate ∷ []

unfoldable pub proxy_program : ProxyLibc → List SockFilter
proxy_program libc =
    prologue ret_kill_process
    ++ (proxy_blocks (proxy_rules libc)
        ++ (proxy_allowed (proxy_rules libc) (proxy_allowlist libc)
            ++ stmt ret_k ret_kill_process ∷ []))

abbrev pub only_action : Call → ℕ → ℕ → ℕ
only_action c i k = if low c i == k then ret_allow else ret_kill_process

abbrev pub no_exec_action : Call → ℕ
no_exec_action c = if bit_and (low c 2) prot_exec == 0 then ret_allow else ret_kill_process

-- What the proxy may do, by whether the call is of its list: each of the six calls with a rule
-- only by its argument, the others always.
abbrev pub action_of : ProxyLibc → Call → Bool → ℕ
action_of libc c listed =
    if c.nr == libc.socket
    then only_action c 0 af_unix
    else if c.nr == libc.ioctl
    then only_action c 1 fionbio
    else if c.nr == libc.sendto
    then only_action c 5 0
    else if c.nr == libc.fallocate
    then only_action c 1 (punch libc)
    else if c.nr == libc.mmap || c.nr == libc.mprotect
    then no_exec_action c
    else if listed
    then ret_allow
    else ret_kill_process

abbrev pub proxy_action : ProxyLibc → Call → ℕ
proxy_action libc c = action_of libc c (contains (proxy_allowlist libc) c.nr)

only-Returns : (c : Call) (i k : ℕ) → i < 6 → Returns c (only i k) (only_action c i k)
unfolding run
only-Returns c i k h rest acc = ground (arith, h)

no_exec-Returns : (c : Call) → Returns c no_exec (no_exec_action c)
unfolding run
no_exec-Returns c rest acc = ground arith

-- The numbers of the libc crate fit the 32 bits of a comparison.
abbrev pub AllBelow : List ℕ → Type 0
AllBelow [] = Unit
AllBelow (n ∷ ns) = (n < u32_mod) × AllBelow ns

AllBelow-get : (ns : List ℕ) (i n : ℕ) → get_elem? ns i ≡ some n → AllBelow ns → n < u32_mod
AllBelow-get [] i n e h = cc
AllBelow-get (m ∷ ns) zero n e h = rw (← some-injective m n e) h.0
AllBelow-get (m ∷ ns) (suc i) n e h = AllBelow-get ns i n e h.1

-- Every body is short and returns its action.
abbrev AllReturn : Call → List (ℕ × List SockFilter) → List ℕ → Type 0
AllReturn c [] actions = Unit
AllReturn c (rule ∷ rules) [] = ⊥
AllReturn c ((nr, body) ∷ rules) (a ∷ actions) =
    ((nr < u32_mod) × (length body < 256) × Returns c body a) × AllReturn c rules actions

abbrev first_action : Call → List (ℕ × List SockFilter) → List ℕ → Option ℕ
first_action c ((nr, body) ∷ rules) (a ∷ actions) =
    or_else (if c.nr == nr then some a else none) (first_action c rules actions)
first_action c _ _ = none

proxy_blocks-Decides :
    (c : Call) (rules : List (ℕ × List SockFilter)) (actions : List ℕ)
    → AllReturn c rules actions
    → Decides c (proxy_blocks rules) (first_action c rules actions)
unfolding proxy_blocks
proxy_blocks-Decides c [] actions h = Decides-nil c
proxy_blocks-Decides c (rule ∷ rules) [] h = absurd h
proxy_blocks-Decides c ((nr, body) ∷ rules) (a ∷ actions) h =
    Decides-append c (guarded nr body) (proxy_blocks rules) _ _
      (Decides-guarded c nr body a h.0.0 h.0.1 h.0.2) (proxy_blocks-Decides c rules actions h.1)

module _ (libc : ProxyLibc) (c : Call) where
  abbrev actions : List ℕ
  actions =
      only_action c 0 af_unix
      ∷ only_action c 1 fionbio
      ∷ only_action c 5 0
      ∷ only_action c 1 (punch libc)
      ∷ no_exec_action c
      ∷ no_exec_action c
      ∷ []

  all_return : AllBelow (proxy_allowlist libc) → AllReturn c (proxy_rules libc) actions
  all_return fits =
      let below = AllBelow-get (proxy_allowlist libc) in
      (
        (below 18 libc.socket refl fits, omega arith, only-Returns c 0 af_unix (omega arith)),
        (
          (below 29 libc.ioctl refl fits, omega arith, only-Returns c 1 fionbio (omega arith)),
          (
            (below 24 libc.sendto refl fits, omega arith, only-Returns c 5 0 (omega arith)),
            (
              (
                below 36 libc.fallocate refl fits,
                omega arith,
                only-Returns c 1 (punch libc) (omega arith),
              ),
              (
                (below 10 libc.mmap refl fits, omega arith, no_exec-Returns c),
                ((below 13 libc.mprotect refl fits, omega arith, no_exec-Returns c), tt),
              ),
            ),
          ),
        ),
      )

  one_allowed :
      (x : ℕ) (r rc : Bool)
      → x < u32_mod
      → (x ≡ c.nr → rc ≡ r)
      → Decides c
          (if not r then pair (x % u32_mod) ret_allow else [])
          (if x == c.nr && not rc then some ret_allow else none)
  one_allowed x true rc fit same rest = ground (arith, same)
  one_allowed x false rc fit same rest =
      let number : x % u32_mod ≡ x = omega (arith, fit) in
      rw number (Decides-pair c x ret_allow rest ∙ ground (arith, same))

  or_one :
      (b d r : Bool)
      → or_else
          (if b && not r then some ret_allow else none)
          (if d && not r then some ret_allow else none)
        ≡ (if (b || d) && not r then some ret_allow else none)
  or_one b d r = ground arith

  proxy_allowed-Decides :
      (xs : List ℕ)
      → AllBelow xs
      → Decides c (proxy_allowed (proxy_rules libc) xs) (
          if contains xs c.nr && not (has_rule (proxy_rules libc) c.nr)
          then some ret_allow
          else none)
  unfolding proxy_allowed
  proxy_allowed-Decides [] fits = Decides-nil c
  proxy_allowed-Decides (x ∷ xs) fits =
      let one =
        one_allowed x (has_rule (proxy_rules libc) x) (has_rule (proxy_rules libc) c.nr) fits.0
          (λ e. ap (has_rule (proxy_rules libc)) (sym e)) in
      rw (← or_one (x == c.nr) (contains xs c.nr) (has_rule (proxy_rules libc) c.nr))
        (Decides-append c _ _ _ _ one (proxy_allowed-Decides xs fits.1))

  -- Where the list allows, no rule has decided.
  verdict_joined :
      (listed : Bool)
      → or_else (first_action c (proxy_rules libc) actions) (
          or_else
            (if listed && not (has_rule (proxy_rules libc) c.nr) then some ret_allow else none)
            (some ret_kill_process))
        ≡ some (action_of libc c listed)
  verdict_joined listed = ground arith

-- The proxy's filter kills foreign calls, and makes of every other what `proxy_action` says.
pub evaluate_args-proxy :
    (libc : ProxyLibc) (c : Call)
    → AllBelow (proxy_allowlist libc)
    → evaluate_args (proxy_program libc) c
      ≡ some (
          if not (c.arch == audit_arch_x86_64) || leb x32_syscall_bit c.nr
          then ret_kill_process
          else proxy_action libc c)
unfolding evaluate_args proxy_program
evaluate_args-proxy libc c fits =
    let rules = proxy_rules libc in
    let last = stmt ret_k ret_kill_process ∷ [] in
    let allowed = proxy_allowed rules (proxy_allowlist libc) in
    let number : run c 0 (proxy_blocks rules ++ (allowed ++ last)) c.nr
        ≡ some (proxy_action libc c) =
      proxy_blocks-Decides c rules (actions libc c) (all_return libc c fits) (allowed ++ last)
      ∙ ap (or_else _) (
          proxy_allowed-Decides libc c (proxy_allowlist libc) fits last
          ∙ ap (or_else _) (kill-run c))
      ∙ verdict_joined libc c (contains (proxy_allowlist libc) c.nr) in
    prologue-run c ret_kill_process (proxy_blocks rules ++ (allowed ++ last))
    ∙ rw number (if-some _ _ _)
