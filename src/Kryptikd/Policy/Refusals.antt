-- ===== src/Kryptikd/Policy/Refusals.antt =====
-- Policy files that are refused, and the capabilities of a zone without the NIC
-- (compartments/kryptikd/src/policy.rs).
use kryptik_os.Common.{
  negsuc, ap, pos, ℕ, ◌+◌, ◌≡◌, ◌≢◌, refl, sym, arith, Bool, true, false, List, [], ◌∷◌, ◌++◌, some,
  ok, >>=-eq-ok, ok-eq, ◌==◌, length, Bytes, ascii, eq_bytes, eq_bytes-eq, has_text, is_blank,
  split_whitespace, words_from, text_lines, ℤ, contains_ℤ, eq_ℤ, inl, inr, Bool-cases,
}
use kryptik_os.Kryptikd.Seccomp.Rules.{contains}
use kryptik_os.Kryptikd.Seccomp.Names.{
  number_in, by_name, numbers, denied_names, is_denied, syscall_by_name,
}
use kryptik_os.Kryptikd.Caps.{
  nic_only, keepable, kept_always, cap_net_broadcast, cap_sys_nice, cap_ipc_lock, cap_kill,
  cap_chown, cap_fowner, cap_fsetid, cap_dac_read_search,
}
use kryptik_os.Kryptikd.Policy.{
  Policy, no_policy, line_text, parse_lines, check_privsep, parse_policy, allow_syscall,
  apply_directive, check_for_zone,
}
use kryptik_os.Kryptikd.Policy.Changes.{parse_lines-taken}
use kryptik_os.Kryptikd.Policy.Sound.{Keepable, parse_policy-Keepable}

eq_ℤ_refl : (v : ℤ) → eq_ℤ v v ≡ true
eq_ℤ_refl (pos n) = ground arith
eq_ℤ_refl (negsuc n) = ground arith

-- A name of the list is found first, and its number is one of the list's.
module _ (number : Bytes → ℤ) where
  number_in-by_name :
      (ns : List Bytes) (tail : List (Bytes × ℤ)) (t : Bytes)
      → has_text ns t ≡ true
      → number_in (by_name number ns ++ tail) t ≡ some (number t)
  number_in-by_name [] tail t h = cc
  number_in-by_name (n ∷ ns) tail t h = elim (Bool-cases (eq_bytes n t)) [
    | inl hit ↦ rw hit (ap (λ (x : Bytes). some (number x)) (eq_bytes-eq n t hit))
    | inr miss ↦ rw miss (number_in-by_name ns tail t (ground (arith, h, miss)))
  ]

  contains-by_name :
      (ns : List Bytes) (t : Bytes)
      → has_text ns t ≡ true
      → contains_ℤ (numbers number (by_name number ns)) (number t) ≡ true
  contains-by_name [] t h = cc
  contains-by_name (n ∷ ns) t h = elim (Bool-cases (eq_bytes n t)) [
    | inl hit ↦ rw (eq_bytes-eq n t hit, eq_ℤ_refl (number t)) refl
    | inr miss ↦ ground (arith, contains-by_name ns t (ground (arith, h, miss)))
  ]

  allow_syscall-denied :
      (n : ℕ) (t : Bytes) (p p' : Policy)
      → has_text denied_names t ≡ true
      → allow_syscall number n t p ≢ ok p'
  unfolding allow_syscall
  allow_syscall-denied n t p p' denied h =
      let found : syscall_by_name number t ≡ some (number t) =
        number_in-by_name denied_names _ t denied in
      let banned : is_denied number (number t) ≡ true = contains-by_name denied_names t denied in
      let k = rw (found, allow_syscall, banned) at h in cc

  apply_directive-denied :
      (n : ℕ) (t : Bytes) (p p' : Policy)
      → has_text denied_names t ≡ true
      → apply_directive number n t p (ascii "allow-syscall") ≢ ok p'
  unfolding apply_directive
  apply_directive-denied n t p p' denied h = allow_syscall-denied n t p p' denied h

  words-text :
      (line : Bytes) (word : Bytes) (more : List Bytes)
      → split_whitespace line ≡ word ∷ more
      → is_blank line ≡ false
  unfolding words_from
  words-text [] word more h = cc
  words-text (c ∷ line) word more h = refl

  parse_lines-denied :
      (n : ℕ) (before : List Bytes) (raw : Bytes) (after : List Bytes) (seen : List (Bytes × Bytes))
      (p p' : Policy) (t : Bytes)
      → has_text denied_names t ≡ true
      → split_whitespace (line_text raw) ≡ ascii "allow-syscall" ∷ t ∷ []
      → parse_lines number n (before ++ raw ∷ after) seen p ≢ ok p'
  unfolding parse_lines
  parse_lines-denied n [] raw after seen p p' t denied words h =
      let (directive, arg, q, split, new, change, later) =
        parse_lines-taken number n raw after seen p p' (words-text (line_text raw) _ _ words) h in
      let same = ok-eq (rw words at split) in
      apply_directive-denied n t p q denied (
        rw (ap (λ (w : Bytes × Bytes). w.0) (sym same), ap (λ (w : Bytes × Bytes). w.1) (sym same))
          at change)
  parse_lines-denied n (line ∷ before) raw after seen p p' t denied words h =
      elim (Bool-cases (is_blank (line_text line))) [
        | inl blank ↦
            let k = rw blank at h in
            parse_lines-denied (n + 1) before raw after seen p p' t denied words k
        | inr other ↦
            let (directive, arg, q, _, new, change, later) =
              parse_lines-taken number n line (before ++ raw ∷ after) seen p p' other h in
            parse_lines-denied (n + 1) before raw after ((directive, arg) ∷ seen) q p' t denied
              words later
      ]

  -- A file in which some line, whatever stands around it, allows a call of the denied list by its
  -- name is not accepted.
  pub parse_policy-denied :
      (text : Bytes) (before : List Bytes) (raw : Bytes) (after : List Bytes) (t : Bytes)
      (p : Policy)
      → text_lines text ≡ before ++ raw ∷ after
      → split_whitespace (line_text raw) ≡ ascii "allow-syscall" ∷ t ∷ []
      → has_text denied_names t ≡ true
      → parse_policy number text ≢ ok p
  unfolding parse_policy
  parse_policy-denied text before raw after t p lines words denied h =
      let (q, read, checked) =
        >>=-eq-ok (parse_lines number 1 (text_lines text) [] no_policy) check_privsep h in
      parse_lines-denied 1 before raw after [] no_policy q t denied words (rw lines at read)

-- The capabilities that a zone without the NIC may keep beyond the one that all keep.
abbrev pub plain_caps : List ℕ
plain_caps =
    cap_net_broadcast ∷ cap_sys_nice ∷ cap_ipc_lock ∷ cap_kill ∷ cap_chown ∷ cap_fowner ∷ cap_fsetid
    ∷ cap_dac_read_search ∷ []

abbrev pub AllPlain : List ℕ → Type 0
AllPlain [] = Unit
AllPlain (c ∷ cs) = (contains plain_caps c ≡ true) × AllPlain cs

plain :
    (c : ℕ)
    → contains keepable c ≡ true
    → (c == kept_always) ≡ false
    → contains nic_only c ≡ false
    → contains plain_caps c ≡ true
plain c keeps other apart = ground (arith, keeps, other, apart)

Keepable-AllPlain :
    (keep : List ℕ) (caps : List Bytes) {b : Bool}
    → Keepable keep
    → length keep ≡ length caps
    → check_for_zone false keep caps ≡ ok b
    → AllPlain keep
unfolding check_for_zone
Keepable-AllPlain [] caps all e h = tt
Keepable-AllPlain (k ∷ keep) [] all e h = absurd (omega arith)
Keepable-AllPlain (k ∷ keep) (name ∷ caps) all e h = elim (Bool-cases (contains nic_only k)) [
  | inl only ↦ let g = rw only at h in cc
  | inr apart ↦
      let g = rw apart at h in
      (plain k (all.0).0 (all.0).1 apart, Keepable-AllPlain keep caps all.1 (omega arith) g)
]

-- What a policy file lets a zone without the NIC keep is one of eight capabilities: none that
-- configures the network, changes the user or the root, or overrides permissions on writing.
pub parse_policy-AllPlain :
    (number : Bytes → ℤ) (text : Bytes) (p : Policy) {b : Bool}
    → parse_policy number text ≡ ok p
    → check_for_zone false p.keep_caps p.keep_cap_names ≡ ok b
    → AllPlain p.keep_caps
parse_policy-AllPlain number text p h zone =
    let (caps, named) = parse_policy-Keepable number text p h in
    Keepable-AllPlain p.keep_caps p.keep_cap_names caps named zone
