-- ===== src/Kryptikd/Seccomp/Decision.antt =====
-- What the whole filter makes of a call, against a description that mentions no instruction.
use kryptik_os.Common.{
  ℕ, ◌+◌, ◌%◌, ◌<◌, ◌≤◌, ◌≡◌, refl, sym, ap, ◌∙◌, arith, Bool, true, false, not, ◌&&◌, ◌||◌, List,
  [], ◌∷◌, ◌++◌, Option, none, some, leb, ◌==◌, if◌then◌else◌, length, u32_mod, ok, >>=-eq-ok,
  ok_or, ok-eq, ℤ, pos, negsuc, contains_ℤ, eq_ℤ,
}
use kryptik_os.Kryptikd.Seccomp.{
  Libc, SocketPolicy, SockFilter, panic, stmt, ret_k, ret_allow, errno_action, enosys, soft_refusal,
  refused_softly, audit_arch_x86_64, x32_syscall_bit,
}
use kryptik_os.Kryptikd.Seccomp.Rules.{
  ArgRule, clone_no_namespaces, clone3_enosys, ioctl_refused, socket_families, socketpair_unix,
  arg_rules, rule_nr, rule_body, emit_arg_rule,
}
use kryptik_os.Kryptikd.Seccomp.Program.{
  assemble, checked, pair, rules_part, soft_part, is_rule, allow_one, allow_part,
  build_program_full,
}
use kryptik_os.Kryptikd.Seccomp.Machine.{Call, run, evaluate_args}
use kryptik_os.Kryptikd.Seccomp.Blocks.{
  or_else, Decides, Decides-nil, Decides-append, Decides-pair, Decides-guarded, IsBody,
  clone_action, ioctl_action, socketpair_action, prologue-run, clone-IsBody, clone3-IsBody,
  ioctl-IsBody, socketpair-IsBody,
}
use kryptik_os.Kryptikd.Seccomp.Sockets.Families.{socket_action, socket_families-IsBody}

-- What a rule says of a call of its syscall.
abbrev pub rule_action : Libc → ℕ → SocketPolicy → Call → ArgRule → ℕ
rule_action libc deny_action sockets c clone_no_namespaces = clone_action libc deny_action c
rule_action libc deny_action sockets c clone3_enosys = errno_action enosys
rule_action libc deny_action sockets c ioctl_refused = ioctl_action libc deny_action c
rule_action libc deny_action sockets c socket_families = socket_action sockets c
rule_action libc deny_action sockets c socketpair_unix = socketpair_action c

module _ (libc : Libc) (allow : List ℤ) (deny_action : ℕ) (sockets : SocketPolicy) (c : Call) where
  -- The first rule whose syscall is allowed and called.
  abbrev pub decide_rules : List ArgRule → Option ℕ
  decide_rules [] = none
  decide_rules (rule ∷ rules) =
      or_else
        (if contains_ℤ allow (pos (rule_nr libc rule)) && c.nr == rule_nr libc rule
          then some (rule_action libc deny_action sockets c rule)
          else none)
        (decide_rules rules)

  -- The first soft refusal whose syscall is not allowed and is called.
  abbrev pub decide_soft : List (ℕ × ℕ) → Option ℕ
  decide_soft [] = none
  decide_soft ((nr, e) ∷ more) =
      or_else
        (if not (contains_ℤ allow (pos nr)) && c.nr == nr
          then some (soft_refusal libc e deny_action)
          else none)
        (decide_soft more)

  -- The verdict on a number of the native table.
  abbrev pub decide_number : Option ℕ
  decide_number = or_else (decide_rules arg_rules) (
      or_else (decide_soft (refused_softly libc)) (
        some (
          if contains_ℤ allow (pos c.nr) && not (is_rule libc arg_rules c.nr)
          then ret_allow
          else deny_action)))

  abbrev pub decide : Option ℕ
  decide =
      if not (c.arch == audit_arch_x86_64) || leb x32_syscall_bit c.nr
      then some deny_action
      else decide_number

-- The numbers of the libc crate fit the 32 bits of a comparison.
abbrev pub AllFit : List (ℕ × ℕ) → Type 0
AllFit [] = Unit
AllFit ((nr, e) ∷ more) = (nr < u32_mod) × AllFit more

abbrev pub RulesFit : Libc → List ArgRule → Type 0
RulesFit libc [] = Unit
RulesFit libc (rule ∷ rules) = (rule_nr libc rule < u32_mod) × RulesFit libc rules

ok_or-eq-ok : {A : Type 0} (o : Option A) (a : A) → ok_or o panic ≡ ok a → o ≡ some a
ok_or-eq-ok none a h = cc
ok_or-eq-ok (some x) a h = cc

module _ (libc : Libc) (allow : List ℤ) (deny_action : ℕ) (sockets : SocketPolicy) (c : Call)
    (few : length sockets.families + length sockets.netlink_protocols ≤ 230) where
  pub rule-IsBody :
      (rule : ArgRule) (body : List SockFilter)
      → rule_body libc rule deny_action sockets ≡ some body
      → IsBody c body (rule_action libc deny_action sockets c rule)
  rule-IsBody clone_no_namespaces body h = clone-IsBody libc c deny_action sockets body h
  rule-IsBody clone3_enosys body h = clone3-IsBody libc c deny_action sockets body h
  rule-IsBody ioctl_refused body h = ioctl-IsBody libc c deny_action sockets body h
  rule-IsBody socket_families body h = socket_families-IsBody libc c deny_action sockets body few h
  rule-IsBody socketpair_unix body h = socketpair-IsBody libc c deny_action sockets body h

  one_rule-Decides :
      (rule : ArgRule) (here : List SockFilter) (listed : Bool)
      → rule_nr libc rule < u32_mod
      → (if listed then emit_arg_rule libc rule deny_action sockets else ok []) ≡ ok here
      → Decides c here (
          if listed && c.nr == rule_nr libc rule
          then some (rule_action libc deny_action sockets c rule)
          else none)
  unfolding emit_arg_rule
  one_rule-Decides rule here true fits h =
      let (body, built, e) =
        >>=-eq-ok (ok_or (rule_body libc rule deny_action sockets) panic) _ h in
      let b = rule-IsBody rule body (ok_or-eq-ok _ body built) in
      rw (← ok-eq e) (Decides-guarded c (rule_nr libc rule) body _ fits b.short b.returns)
  one_rule-Decides rule here false fits h = rw (← ok-eq h) (Decides-nil c)

  rules_part-Decides :
      (rules : List ArgRule) (p : List SockFilter)
      → RulesFit libc rules
      → rules_part libc allow deny_action sockets rules ≡ ok p
      → Decides c p (decide_rules libc allow deny_action sockets c rules)
  unfolding rules_part
  rules_part-Decides [] p fits h = rw (← ok-eq h) (Decides-nil c)
  rules_part-Decides (rule ∷ rules) p fits h =
      let listed = contains_ℤ allow (pos (rule_nr libc rule)) in
      let (here, one, h1) =
        >>=-eq-ok (if listed then emit_arg_rule libc rule deny_action sockets else ok []) _ h in
      let (later, more, e) = >>=-eq-ok (rules_part libc allow deny_action sockets rules) _ h1 in
      rw (← ok-eq e) (
        Decides-append c here later _ _ (one_rule-Decides rule here listed fits.0 one)
          (rules_part-Decides rules later fits.1 more))

module _ (libc : Libc) (allow : List ℤ) (deny_action : ℕ) (sockets : SocketPolicy) (c : Call) where
  one_soft-Decides :
      (nr e : ℕ) (b : Bool)
      → nr < u32_mod
      → Decides c
          (if b then pair (nr % u32_mod) (soft_refusal libc e deny_action) else [])
          (if b && c.nr == nr then some (soft_refusal libc e deny_action) else none)
  one_soft-Decides nr e true fits =
      let number : nr % u32_mod ≡ nr = omega arith in
      rw number (Decides-pair c nr (soft_refusal libc e deny_action))
  one_soft-Decides nr e false fits = Decides-nil c

  soft_part-Decides :
      (softs : List (ℕ × ℕ))
      → AllFit softs
      → Decides c
          (soft_part libc allow deny_action sockets softs)
          (decide_soft libc allow deny_action sockets c softs)
  unfolding soft_part
  soft_part-Decides [] fits = Decides-nil c
  soft_part-Decides ((nr, e) ∷ more) fits =
      Decides-append c _ _ _ _ (one_soft-Decides nr e (not (contains_ℤ allow (pos nr))) fits.0)
        (soft_part-Decides more fits.1)

  -- The allowlist decides the calls of its numbers that no rule decides.
  abbrev decide_allowed : List ℤ → Option ℕ
  decide_allowed xs =
      if contains_ℤ xs (pos c.nr) && not (is_rule libc arg_rules c.nr) then some ret_allow else none

  allow_one-made :
      (n : ℕ) (here : List SockFilter)
      → allow_one libc (pos n) ≡ ok here
      → (if is_rule libc arg_rules n then [] else pair n ret_allow) ≡ here
  unfolding allow_one
  allow_one-made n here h = ground arith

  allowed_pair-Decides :
      (n : ℕ) (ruled ruled_call : Bool)
      → (n ≡ c.nr → ruled_call ≡ ruled)
      → Decides c
          (if ruled then [] else pair n ret_allow)
          (if n == c.nr && not ruled_call then some ret_allow else none)
  allowed_pair-Decides n true ruled_call same rest = ground (arith, same)
  allowed_pair-Decides n false ruled_call same rest =
      Decides-pair c n ret_allow rest ∙ ground (arith, same)

  allow_one-Decides :
      (nr : ℤ) (here : List SockFilter)
      → allow_one libc nr ≡ ok here
      → Decides c here
          (if eq_ℤ nr (pos c.nr) && not (is_rule libc arg_rules c.nr) then some ret_allow else none)
  allow_one-Decides (negsuc n) here h = unfold allow_one in cc h
  allow_one-Decides (pos n) here h = rw (← allow_one-made n here h) (
      allowed_pair-Decides n (is_rule libc arg_rules n) (is_rule libc arg_rules c.nr)
        (λ e. ap (is_rule libc arg_rules) (sym e)))

  or_allowed :
      (b d ruled : Bool)
      → or_else
          (if b && not ruled then some ret_allow else none)
          (if d && not ruled then some ret_allow else none)
        ≡ (if (b || d) && not ruled then some ret_allow else none)
  or_allowed b d ruled = ground arith

  allow_part-Decides :
      (xs : List ℤ) (p : List SockFilter)
      → allow_part libc xs ≡ ok p
      → Decides c p (decide_allowed xs)
  unfolding allow_part
  allow_part-Decides [] p h = rw (← ok-eq h) (Decides-nil c)
  allow_part-Decides (x ∷ xs) p h =
      let (here, one, h1) = >>=-eq-ok (allow_one libc x) _ h in
      let (later, more, e) = >>=-eq-ok (allow_part libc xs) _ h1 in
      rw
        (
          ← ok-eq e,
          ← or_allowed (eq_ℤ x (pos c.nr)) (contains_ℤ xs (pos c.nr)) (is_rule libc arg_rules c.nr),
        )
        (Decides-append c here later _ _ (allow_one-Decides x here one)
          (allow_part-Decides xs later more))

  last-run : run c 0 (stmt ret_k deny_action ∷ []) c.nr ≡ some deny_action
  unfolding run
  last-run = refl

checked-eq-ok : (p q : List SockFilter) → checked p ≡ ok q → p ≡ q
unfolding checked
checked-eq-ok p q h = ground arith

pub build-parts :
    (libc : Libc) (allow : List ℤ) (deny_action : ℕ) (sockets : SocketPolicy) (p : List SockFilter)
    → build_program_full libc allow deny_action sockets ≡ ok p
    → (rules : List SockFilter) × (allowed : List SockFilter) × (rules_part libc allow deny_action
          sockets arg_rules
        ≡ ok rules)
      × (allow_part libc allow ≡ ok allowed)
      × (assemble deny_action rules
            (soft_part libc allow deny_action sockets (refused_softly libc))
            allowed
          ≡ p)
unfolding build_program_full
build-parts libc allow deny_action sockets p h =
    let (rules, a, h1) = >>=-eq-ok (rules_part libc allow deny_action sockets arg_rules) _ h in
    let (allowed, b, h2) = >>=-eq-ok (allow_part libc allow) _ h1 in
    (rules, allowed, a, b, checked-eq-ok _ p h2)

or_else_allowed :
    (b : Bool) (deny_action : ℕ)
    → or_else (if b then some ret_allow else none) (some deny_action)
      ≡ some (if b then ret_allow else deny_action)
or_else_allowed true deny_action = refl
or_else_allowed false deny_action = refl

-- Whatever the allowlist, the action on a refusal and the policy: a filter that is built makes of
-- every call, with any arguments, what `decide` says.
pub evaluate_args-build :
    (libc : Libc) (allow : List ℤ) (deny_action : ℕ) (sockets : SocketPolicy) (c : Call)
    (p : List SockFilter)
    → RulesFit libc arg_rules
    → AllFit (refused_softly libc)
    → length sockets.families + length sockets.netlink_protocols ≤ 230
    → build_program_full libc allow deny_action sockets ≡ ok p
    → evaluate_args p c ≡ decide libc allow deny_action sockets c
unfolding evaluate_args
evaluate_args-build libc allow deny_action sockets c p rules_fit softs_fit few h =
    let (rules, allowed, a, b, made) = build-parts libc allow deny_action sockets p h in
    let soft = soft_part libc allow deny_action sockets (refused_softly libc) in
    let tail = stmt ret_k deny_action ∷ [] in
    let by_rules =
      rules_part-Decides libc allow deny_action sockets c few arg_rules rules rules_fit a in
    let by_soft =
      soft_part-Decides libc allow deny_action sockets c (refused_softly libc) softs_fit in
    let by_list = allow_part-Decides libc allow deny_action sockets c allow allowed b in
    let number : run c 0 (rules ++ (soft ++ (allowed ++ tail))) c.nr
        ≡ decide_number libc allow deny_action sockets c =
      by_rules (soft ++ (allowed ++ tail))
      ∙ ap (or_else _) (
          by_soft (allowed ++ tail)
          ∙ ap (or_else _) (by_list tail ∙ or_else_allowed _ deny_action)) in
    ap (λ (q : List SockFilter). run c 0 q 0) (sym made)
    ∙ prologue-run c deny_action (rules ++ (soft ++ (allowed ++ tail)))
    ∙ rw number
