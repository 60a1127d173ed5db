-- ===== src/Kryptikd/Seccomp/Blocks.antt =====
-- Blocks of the filter: each decides a call or passes it on with its number still loaded.
use Prim.Native.Nat.{bit_and}
use kryptik_os.Common.{
  ℕ, ◌+◌, ◌%◌, ◌<◌, ◌≡◌, refl, ap, ◌∙◌, arith, Bool, true, false, not, ◌&&◌, ◌||◌, List, [], ◌∷◌,
  ◌++◌, Option, none, some, leb, ◌==◌, if◌then◌else◌, length, u32_mod, inl, inr, Bool-cases,
}
use mathlib.Core.List.{append_assoc}
use mathlib.Core.Option.{some-injective}
use kryptik_os.Kryptikd.Seccomp.{
  Libc, audit_arch_x86_64, x32_syscall_bit, ret_kill_process, SockFilter, stmt, ret_k, ret_allow,
  errno_action, soft_refusal, clone_ns_mask, tiocsti, tioclinux, siocethtool, siocsmiireg,
  siocdevprivate, af_unix, eafnosupport, enosys, eperm, SocketPolicy,
}
use kryptik_os.Kryptikd.Seccomp.Rules.{
  clone_no_namespaces, clone3_enosys, ioctl_refused, socketpair_unix, guarded, rule_body,
}
use kryptik_os.Kryptikd.Seccomp.Program.{pair, prologue}
use kryptik_os.Kryptikd.Seccomp.Machine.{Call, run, run-skip}

abbrev pub or_else : Option ℕ → Option ℕ → Option ℕ
or_else (some a) r = some a
or_else none r = r

-- The block returns what `d` says, or goes on behind itself where it says nothing.
abbrev pub Decides : Call → List SockFilter → Option ℕ → Type 0
Decides c block d =
    (rest : List SockFilter) → run c 0 (block ++ rest) c.nr ≡ or_else d (run c 0 rest c.nr)

or_else_assoc : (d e r : Option ℕ) → or_else d (or_else e r) ≡ or_else (or_else d e) r
or_else_assoc none e r = refl
or_else_assoc (some a) e r = refl

pub Decides-nil : (c : Call) → Decides c [] none
Decides-nil c rest = refl

pub Decides-append :
    (c : Call) (a b : List SockFilter) (d e : Option ℕ)
    → Decides c a d
    → Decides c b e
    → Decides c (a ++ b) (or_else d e)
Decides-append c a b d e h k rest =
    rw append_assoc
      (h (b ++ rest) ∙ ap (or_else d) (k rest) ∙ or_else_assoc d e (run c 0 rest c.nr))

pub Decides-pair :
    (c : Call) (nr action : ℕ)
    → Decides c (pair nr action) (if c.nr == nr then some action else none)
unfolding run
Decides-pair c nr action rest = ground arith

-- A body that always returns, whatever the accumulator holds.
abbrev pub Returns : Call → List SockFilter → ℕ → Type 0
Returns c body a = (rest : List SockFilter) (acc : ℕ) → run c 0 (body ++ rest) acc ≡ some a

-- Behind its number's comparison such a body decides the calls of that number.
pub Decides-guarded :
    (c : Call) (nr : ℕ) (body : List SockFilter) (a : ℕ)
    → nr < u32_mod
    → length body < 256
    → Returns c body a
    → Decides c (guarded nr body) (if c.nr == nr then some a else none)
unfolding run
Decides-guarded c nr body a fits short h rest =
    let number : nr % u32_mod ≡ nr = omega arith in
    let long : length body % 256 ≡ length body + 0 = omega arith in
    rw (number, long)
      (elim (Bool-cases (c.nr == nr)) [
        | inl hit ↦ rw hit (h rest c.nr)
        | inr miss ↦ rw miss (run-skip c body rest 0 c.nr)
      ])

-- The prologue takes the deny action on a call of another architecture or of x32.
pub prologue-run :
    (c : Call) (deny_action : ℕ) (rest : List SockFilter)
    → run c 0 (prologue deny_action ++ rest) 0 ≡ (
        if not (c.arch == audit_arch_x86_64) || leb x32_syscall_bit c.nr
        then some deny_action
        else run c 0 rest c.nr)
unfolding run
prologue-run c deny_action rest = ground arith

pub kill-run : (c : Call) → run c 0 (stmt ret_k ret_kill_process ∷ []) c.nr ≡ some ret_kill_process
unfolding run
kill-run c = refl

pub if-some : (b : Bool) (x y : ℕ) → (if b then some x else some y) ≡ some (if b then x else y)
if-some true x y = refl
if-some false x y = refl

-- The low half of an argument.
abbrev pub low : Call → ℕ → ℕ
low c i = c.args i % u32_mod

-- What a zone hears of a clone, an ioctl and a socketpair.
abbrev pub clone_action : Libc → ℕ → Call → ℕ
clone_action libc deny_action c =
    if bit_and (low c 0) clone_ns_mask == 0 then ret_allow else soft_refusal libc eperm deny_action

abbrev pub ioctl_action : Libc → ℕ → Call → ℕ
ioctl_action libc deny_action c =
    let request = low c 1 in
    if request == tiocsti || request == tioclinux
    then deny_action
    else if request == siocethtool
        || request == siocsmiireg
        || leb siocdevprivate request && leb request (siocdevprivate + 15)
    then soft_refusal libc eperm deny_action
    else ret_allow

abbrev pub socketpair_action : Call → ℕ
socketpair_action c = if low c 0 == af_unix then ret_allow else errno_action eafnosupport

-- A body that returns an action, and is short enough for the jump over it.
pub record IsBody (c : Call) (body : List SockFilter) (a : ℕ) : Type 0 where
  pub returns : Returns c body a
  pub short : length body < 256

module _ (libc : Libc) (c : Call) (deny_action : ℕ) (sockets : SocketPolicy)
    (body : List SockFilter) where
  pub clone-IsBody :
      rule_body libc clone_no_namespaces deny_action sockets ≡ some body
      → IsBody c body (clone_action libc deny_action c)
  unfolding rule_body run
  clone-IsBody h =
      rw (← some-injective _ body h)
        (record { returns = λ rest acc. ground arith; short = omega arith })

  pub clone3-IsBody :
      rule_body libc clone3_enosys deny_action sockets ≡ some body
      → IsBody c body (errno_action enosys)
  unfolding rule_body run
  clone3-IsBody h =
      rw (← some-injective _ body h)
        (record { returns = λ rest acc. ground arith; short = omega arith })

  pub ioctl-IsBody :
      rule_body libc ioctl_refused deny_action sockets ≡ some body
      → IsBody c body (ioctl_action libc deny_action c)
  unfolding rule_body run
  ioctl-IsBody h =
      rw (← some-injective _ body h)
        (record { returns = λ rest acc. ground arith; short = omega arith })

  pub socketpair-IsBody :
      rule_body libc socketpair_unix deny_action sockets ≡ some body
      → IsBody c body (socketpair_action c)
  unfolding rule_body run
  socketpair-IsBody h =
      rw (← some-injective _ body h)
        (record { returns = λ rest acc. ground arith; short = omega arith })
