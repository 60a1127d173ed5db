-- ===== src/Kryptikd/Seccomp/Zone/Refusals.antt =====
-- Calls that the allowlist of a zone does not have (compartments/kryptikd/src/seccomp.rs).
use kryptik_os.Common.{
  ℕ, ◌≡◌, ◌≢◌, refl, arith, Bool, true, false, not, ◌&&◌, ◌||◌, List, [], ◌∷◌, Option, none, some,
  ◌==◌, ==_iff, leb, ℤ, pos, contains_ℤ, inl, inr, Bool-cases, both,
}
use kryptik_os.Kryptikd.Seccomp.{
  Libc, SocketPolicy, ret_allow, ret_kill_process, refused_softly, soft_refusal, errno_action,
  audit_arch_x86_64, x32_syscall_bit,
}
use kryptik_os.Kryptikd.Seccomp.Rules.{ArgRule, arg_rules, rule_nr}
use kryptik_os.Kryptikd.Seccomp.Machine.{Call}
use kryptik_os.Kryptikd.Seccomp.Blocks.{or_else}
use kryptik_os.Kryptikd.Seccomp.Decision.{decide_rules, decide_soft, decide_number, decide}

-- An action that does not let a call through.
abbrev refuses : Option ℕ → Bool
refuses none = true
refuses (some a) = not (a == ret_allow)

abbrev AllRefuse : List (ℕ × ℕ) → Type 0
AllRefuse [] = Unit
AllRefuse ((nr, e) ∷ more) = (refuses (some (errno_action e)) ≡ true) × AllRefuse more

refused_softly-AllRefuse : (libc : Libc) → AllRefuse (refused_softly libc)
unfolding refused_softly errno_action
refused_softly-AllRefuse libc = ground arith

module _ (libc : Libc) (allow : List ℤ) (sockets : SocketPolicy) (c : Call)
    (missing : contains_ℤ allow (pos c.nr) ≡ false) where
  decide_rules-none :
      (rules : List ArgRule) → decide_rules libc allow ret_kill_process sockets c rules ≡ none
  decide_rules-none [] = refl
  decide_rules-none (rule ∷ rules) =
      elim (Bool-cases (contains_ℤ allow (pos (rule_nr libc rule)) && c.nr == rule_nr libc rule)) [
        | inr miss ↦ rw miss (decide_rules-none rules)
        | inl hit ↦
            let (member, called) = both _ (c.nr == rule_nr libc rule) hit in
            let same = (==_iff c.nr (rule_nr libc rule)).0 called in
            let k = rw same at missing in cc
      ]

  decide_soft-refuses :
      (softs : List (ℕ × ℕ))
      → AllRefuse softs
      → refuses (decide_soft libc allow ret_kill_process sockets c softs) ≡ true
  unfolding soft_refusal
  decide_soft-refuses [] all = refl
  decide_soft-refuses ((nr, e) ∷ more) all =
      elim (Bool-cases (not (contains_ℤ allow (pos nr)) && c.nr == nr)) [
        | inr miss ↦ rw miss (decide_soft-refuses more all.1)
        | inl hit ↦ rw hit (elim (Bool-cases (ret_kill_process == libc.user_notif)) [
          | inl notifies ↦ rw notifies refl
          | inr other ↦ rw other all.0
        ])
      ]

  refuses-or_else :
      (o : Option ℕ) (a : ℕ)
      → refuses o ≡ true
      → refuses (some a) ≡ true
      → refuses (or_else o (some a)) ≡ true
  refuses-or_else none a h k = k
  refuses-or_else (some x) a h k = h

  pub decide-refuses : decide libc allow ret_kill_process sockets c ≢ some ret_allow
  decide-refuses h =
      let number : refuses (decide_number libc allow ret_kill_process sockets c) ≡ true =
        rw (decide_rules-none arg_rules, missing)
          (refuses-or_else (decide_soft libc allow ret_kill_process sockets c (refused_softly libc))
            ret_kill_process
            (decide_soft-refuses (refused_softly libc) (refused_softly-AllRefuse libc)) refl) in
      elim (Bool-cases (not (c.arch == audit_arch_x86_64) || leb x32_syscall_bit c.nr)) [
        | inl foreign ↦ let k = rw foreign at h in ground (arith, k)
        | inr native ↦ let k = rw native at h in let e = rw k at number in cc
      ]
