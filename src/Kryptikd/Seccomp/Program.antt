-- ===== src/Kryptikd/Seccomp/Program.antt =====
-- `build_program_full` of compartments/kryptikd/src/seccomp.rs.
use kryptik_os.Common.{
  ℕ, ◌-◌, ◌%◌, Bool, false, not, ◌||◌, List, [], ◌∷◌, ◌++◌, Result, ok, err, ◌>>=◌, ltb, ◌==◌,
  if◌then◌else◌, length, u32_mod, ℤ, pos, negsuc, contains_ℤ,
}
use kryptik_os.Kryptikd.Seccomp.{
  Libc, SocketPolicy, SockFilter, stmt, jump, Stop, refused, too_many_rules, bad_syscall_number,
  ld_w_abs, jeq_k, jge_k, ret_k, ret_allow, off_arch, off_nr, audit_arch_x86_64, x32_syscall_bit,
  soft_refusal, refused_softly,
}
use kryptik_os.Kryptikd.Seccomp.Rules.{ArgRule, arg_rules, rule_nr, emit_arg_rule}

-- The architecture and the x32 checks.
abbrev pub prologue : ℕ → List SockFilter
prologue deny_action =
    stmt ld_w_abs off_arch
    ∷ jump jeq_k audit_arch_x86_64 1 0
    ∷ stmt ret_k deny_action
    ∷ stmt ld_w_abs off_nr
    ∷ jump jge_k x32_syscall_bit 0 1
    ∷ stmt ret_k deny_action
    ∷ []

-- A comparison with a number, and the action on a hit.
abbrev pub pair : ℕ → ℕ → List SockFilter
pair nr action = jump jeq_k nr 0 1 ∷ stmt ret_k action ∷ []

module _ (libc : Libc) (allow : List ℤ) (deny_action : ℕ) (sockets : SocketPolicy) where
  -- The loop over `ARG_RULES`.
  unfoldable pub rules_part : List ArgRule → Result Stop (List SockFilter)
  rules_part [] = ok []
  rules_part (rule ∷ rules) = do
    here ←
        (if contains_ℤ allow (pos (rule_nr libc rule))
          then emit_arg_rule libc rule deny_action sockets
          else ok [])
    rest ← rules_part rules
    ok (here ++ rest)

  -- The loop over `REFUSED_SOFTLY`.
  unfoldable pub soft_part : List (ℕ × ℕ) → List SockFilter
  soft_part [] = []
  soft_part ((nr, e) ∷ more) =
      (if not (contains_ℤ allow (pos nr))
        then pair (nr % u32_mod) (soft_refusal libc e deny_action)
        else [])
      ++ soft_part more

-- `ARG_RULES.iter().any(|r| r.nr() == nr)`
abbrev pub is_rule : Libc → List ArgRule → ℕ → Bool
is_rule libc [] n = false
is_rule libc (rule ∷ rules) n = rule_nr libc rule == n || is_rule libc rules n

unfoldable pub allow_one : Libc → ℤ → Result Stop (List SockFilter)
allow_one libc (negsuc n) = err (refused (bad_syscall_number (negsuc n)))
allow_one libc (pos n) =
    if ltb (u32_mod - 1) n
    then err (refused (bad_syscall_number (pos n)))
    else if is_rule libc arg_rules n
    then ok []
    else ok (pair n ret_allow)

-- The loop over the allowlist.
unfoldable pub allow_part : Libc → List ℤ → Result Stop (List SockFilter)
allow_part libc [] = ok []
allow_part libc (nr ∷ more) = do
  here ← allow_one libc nr
  rest ← allow_part libc more
  ok (here ++ rest)

-- The program in its order, with the default action last.
abbrev pub assemble : ℕ → List SockFilter → List SockFilter → List SockFilter → List SockFilter
assemble deny_action rules soft allowed =
    prologue deny_action ++ (rules ++ (soft ++ (allowed ++ stmt ret_k deny_action ∷ [])))

-- The kernel's limit.
unfoldable pub checked : List SockFilter → Result Stop (List SockFilter)
checked p = if ltb 4096 (length p) then err (refused (too_many_rules (length p))) else ok p

unfoldable pub build_program_full : Libc → List ℤ → ℕ → SocketPolicy → Result Stop (List SockFilter)
build_program_full libc allow deny_action sockets = do
  rules ← rules_part libc allow deny_action sockets arg_rules
  allowed ← allow_part libc allow
  checked (
      assemble deny_action rules (soft_part libc allow deny_action sockets (refused_softly libc))
        allowed)
