-- ===== src/Kryptikd/Policy/Tests.antt =====
-- A policy file of three lines, parsed, and its filter.
use kryptik_os.Common.{
  ℕ, ◌+◌, ◌*◌, ◌%◌, ◌<◌, ◌≡◌, ◌≢◌, refl, arith, true, false, List, [], ◌∷◌, ◌++◌, some, ok, Bytes,
  ascii, u32_mod, ℤ, pos, trim_start, trim_end, words_from, strip_cr, lines_from, before,
  contains_ℤ,
}
use kryptik_os.Kryptikd.Seccomp.{SockFilter, ret_allow, audit_arch_x86_64}
use kryptik_os.Kryptikd.Seccomp.Names.{
  named, base_names, denied_names, addable_names, is_denied, base_allowlist,
}
use kryptik_os.Kryptikd.Seccomp.Machine.{Call, evaluate_args}
use kryptik_os.Kryptikd.Seccomp.Zone.{zone_filter}
use kryptik_os.Kryptikd.Seccomp.Zone.Built.{LibcNumbers}
use kryptik_os.Kryptikd.Policy.{
  Policy, allow_syscall, allow_socket, allow_netlink, keep_capability, apply_directive, parse_lines,
  check_privsep, parse_policy, check_for_zone,
}
use kryptik_os.Kryptikd.Tests.{linux, linux-RulesFit, linux-AllFit}
use kryptik_os.Kryptikd.Policy.Filter.{zone_filter-parse_policy, zone_filter-is_denied}
use kryptik_os.Kryptikd.Policy.Refusals.{parse_policy-denied}

-- Numbers for the names, of 32 bits.
abbrev code_of : Bytes → ℕ
code_of [] = 0
code_of (c ∷ cs) = (code_of cs * 257 + c) % u32_mod

abbrev numbered : Bytes → ℤ
numbered name = pos (code_of name)

code_of-lt : (name : Bytes) → code_of name < u32_mod
code_of-lt [] = omega arith
code_of-lt (c ∷ cs) = omega arith

numbered-LibcNumbers : LibcNumbers numbered
numbered-LibcNumbers name = code_of-lt name

abbrev policy_text : Bytes
policy_text =
    ascii "# for the browser"
    ++ 10
      ∷ (ascii "allow-syscall seccomp"
          ++ 10
            ∷ (ascii "  allow-socket AF_ALG # crypto"
                ++ 10 ∷ (ascii "keep-capability CAP_SYS_NICE" ++ 10 ∷ [])))

abbrev policy : Policy
policy = record {
  extra_syscalls = numbered (ascii "seccomp") ∷ [];
  extra_syscall_names = ascii "seccomp" ∷ [];
  sockets = record { families = 38 ∷ []; netlink_protocols = []; netlink_all = false };
  socket_names = ascii "AF_ALG" ∷ [];
  netlink_names = [];
  keep_caps = 23 ∷ [];
  keep_cap_names = ascii "CAP_SYS_NICE" ∷ [];
  warnings = [];
}

policy-parsed : parse_policy numbered policy_text ≡ ok policy
unfolding parse_policy parse_lines apply_directive allow_syscall allow_socket allow_netlink
    keep_capability check_privsep trim_start trim_end words_from strip_cr lines_from before
    denied_names base_names addable_names named
policy-parsed = refl

zone_filter-parse_policy_example :
    (program : List SockFilter) × (zone_filter linux numbered policy.extra_syscalls policy.sockets
        policy.keep_caps
      ≡ ok program)
zone_filter-parse_policy_example =
    zone_filter-parse_policy linux numbered policy_text policy numbered-LibcNumbers policy-parsed

abbrev policy_filter : List SockFilter
policy_filter =
    (zone_filter-parse_policy linux numbered policy_text policy numbered-LibcNumbers
      policy-parsed).0

policy_filter-built :
    zone_filter linux numbered policy.extra_syscalls policy.sockets policy.keep_caps
    ≡ ok policy_filter
policy_filter-built =
    (zone_filter-parse_policy linux numbered policy_text policy numbered-LibcNumbers
      policy-parsed).1

abbrev call_mount : Call
call_mount = record { arch = audit_arch_x86_64; nr = code_of (ascii "mount"); args = λ i. 0 }

zone_accepted : check_for_zone false policy.keep_caps policy.keep_cap_names ≡ ok true
unfolding check_for_zone
zone_accepted = refl

mount-is_denied : is_denied numbered (pos (code_of (ascii "mount"))) ≡ true
unfolding denied_names named
mount-is_denied = refl

mount-not_base : contains_ℤ (base_allowlist numbered) (pos (code_of (ascii "mount"))) ≡ false
unfolding base_names named
mount-not_base = refl

zone_filter-is_denied_example : evaluate_args policy_filter call_mount ≢ some ret_allow
zone_filter-is_denied_example =
    zone_filter-is_denied linux numbered policy_text policy policy_filter call_mount linux-RulesFit
      linux-AllFit policy-parsed zone_accepted policy_filter-built mount-is_denied mount-not_base

abbrev mount_line : Bytes
mount_line = ascii "allow-syscall mount  # no"

parse_policy-denied_example :
    parse_policy numbered (ascii "allow-netlink NETLINK_AUDIT" ++ 10 ∷ mount_line) ≢ ok policy
unfolding trim_start trim_end words_from strip_cr lines_from before denied_names named
parse_policy-denied_example =
    parse_policy-denied numbered (ascii "allow-netlink NETLINK_AUDIT" ++ 10 ∷ mount_line)
      (ascii "allow-netlink NETLINK_AUDIT" ∷ []) mount_line [] (ascii "mount") policy refl refl refl
