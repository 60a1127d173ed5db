-- ===== src/Kryptikd/Policy/Changes.antt =====
-- What one accepted line of a policy file does to the policy, and the loop's rule for invariants
-- (compartments/kryptikd/src/policy.rs).
use kryptik_os.Common.{
  eq_bytes-eq, ℕ, ◌+◌, ◌≡◌, refl, arith, Bool, true, false, not, List, [], ◌∷◌, some, Result, ok,
  >>=-eq-ok, ok-eq, ◌==◌, if◌then◌else◌, Bytes, ascii, eq_bytes, is_blank, split_whitespace, ℤ,
  contains_ℤ, inl, inr, Bool-cases, Option-cases,
}
use kryptik_os.Kryptikd.Seccomp.{af_netlink, netlink_route}
use kryptik_os.Kryptikd.Seccomp.Rules.{contains}
use kryptik_os.Kryptikd.Seccomp.Names.{base_allowlist, is_denied, syscall_by_name}
use kryptik_os.Kryptikd.Caps.{cap_by_name, keepable, kept_always}
use kryptik_os.Kryptikd.Policy.{
  PolicyError, socket_family_by_name, netlink_protocol_by_name, base_socket_families, Policy,
  Reason, at_line, warn, add_syscall, add_family, open_netlink, add_protocol, add_cap,
  allow_syscall, allow_socket, allow_netlink, keep_capability, apply_directive, two_words, has_seen,
  line_text, parse_lines, duplicate_directive,
}

-- An `if` that stops, and went on.
pub if-ok :
    (b : Bool) (n : ℕ) (r : Reason) (m : Result PolicyError Policy) (p : Policy)
    → (if b then at_line n r else m) ≡ ok p
    → (b ≡ false) × (m ≡ ok p)
if-ok true n r m p h = cc
if-ok false n r m p h = (refl, h)

module _ (number : Bytes → ℤ) (arg : Bytes) (p : Policy) where
  pub data Change : Bytes → Policy → Type 0 where
    warned : (directive : Bytes) (n : ℕ) → Change directive (warn n arg p)
    syscall :
        (nr : ℤ)
        → syscall_by_name number arg ≡ some nr
        → is_denied number nr ≡ false
        → contains_ℤ (base_allowlist number) nr ≡ false
        → Change (ascii "allow-syscall") (add_syscall arg nr p)
    family :
        (fam : ℕ)
        → socket_family_by_name arg ≡ some fam
        → contains base_socket_families fam ≡ false
        → Change (ascii "allow-socket") (add_family arg fam p)
    netlink :
        (fam : ℕ)
        → socket_family_by_name arg ≡ some fam
        → Change (ascii "allow-socket") (open_netlink arg p)
    protocol :
        (proto : ℕ)
        → netlink_protocol_by_name arg ≡ some proto
        → Change (ascii "allow-netlink") (add_protocol arg proto p)
    capability :
        (c : ℕ)
        → contains keepable c ≡ true
        → (c == kept_always) ≡ false
        → Change (ascii "keep-capability") (add_cap arg c p)

  -- The four directives.
  allow_syscall-Change :
      (n : ℕ) (p' : Policy)
      → allow_syscall number n arg p ≡ ok p'
      → Change (ascii "allow-syscall") p'
  unfolding allow_syscall
  allow_syscall-Change n p' h = elim (Option-cases (syscall_by_name number arg)) [
    | inl e ↦ let h = rw (e, allow_syscall) at h in cc
    | inr (nr, e) ↦
        let h = rw (e, allow_syscall) at h in
        (let (fine, k) = if-ok (is_denied number nr) n _ _ p' h in
          elim (Bool-cases (contains_ℤ (base_allowlist number) nr)) [
            | inl old ↦ (let k = rw old at k in rw (← ok-eq k) (warned _ n))
            | inr new ↦ (let k = rw new at k in rw (← ok-eq k) (syscall nr e fine new))
          ])
  ]

  allow_socket-Change :
      (n : ℕ) (p' : Policy) → allow_socket number n arg p ≡ ok p' → Change (ascii "allow-socket") p'
  unfolding allow_socket
  allow_socket-Change n p' h = elim (Option-cases (socket_family_by_name arg)) [
    | inl e ↦ let h = rw (e, allow_socket) at h in cc
    | inr (fam, e) ↦
        let h = rw (e, allow_socket) at h in
        (elim (Bool-cases (fam == af_netlink)) [
          | inl opens ↦ (let h = rw opens at h in rw (← ok-eq h) (netlink fam e))
          | inr other ↦
              (let h = rw other at h in
                elim (Bool-cases (contains base_socket_families fam)) [
                  | inl old ↦ (let h = rw old at h in rw (← ok-eq h) (warned _ n))
                  | inr new ↦ (let h = rw new at h in rw (← ok-eq h) (family fam e new))
                ])
        ])
  ]

  allow_netlink-Change :
      (n : ℕ) (p' : Policy)
      → allow_netlink number n arg p ≡ ok p'
      → Change (ascii "allow-netlink") p'
  unfolding allow_netlink
  allow_netlink-Change n p' h = elim (Option-cases (netlink_protocol_by_name arg)) [
    | inl e ↦ let h = rw (e, allow_netlink) at h in cc
    | inr (proto, e) ↦
        let h = rw (e, allow_netlink) at h in
        (elim (Bool-cases (proto == netlink_route)) [
          | inl old ↦ (let h = rw old at h in rw (← ok-eq h) (warned _ n))
          | inr new ↦ (let h = rw new at h in rw (← ok-eq h) (protocol proto e))
        ])
  ]

  keep_capability-Change :
      (n : ℕ) (p' : Policy)
      → keep_capability number n arg p ≡ ok p'
      → Change (ascii "keep-capability") p'
  unfolding keep_capability
  keep_capability-Change n p' h = elim (Option-cases (cap_by_name arg)) [
    | inl e ↦ let h = rw (e, keep_capability) at h in cc
    | inr (c, e) ↦
        let h = rw (e, keep_capability) at h in
        (let (miss, k) = if-ok (not (contains keepable c)) n _ _ p' h in
          let keeps : contains keepable c ≡ true = ground (arith, miss) in
          elim (Bool-cases (c == kept_always)) [
            | inl old ↦ (let k = rw old at k in rw (← ok-eq k) (warned _ n))
            | inr new ↦ (let k = rw new at k in rw (← ok-eq k) (capability c keeps new))
          ])
  ]

  -- An `if` on a directive's name.
  if-Change :
      (directive name : Bytes) (m rest : Result PolicyError Policy) (p' : Policy)
      → (m ≡ ok p' → Change name p')
      → (rest ≡ ok p' → Change directive p')
      → (if eq_bytes directive name then m else rest) ≡ ok p'
      → Change directive p'
  if-Change directive name m rest p' hit miss h = elim (Bool-cases (eq_bytes directive name)) [
    | inl same ↦ (let h = rw same at h in rw (eq_bytes-eq directive name same) (hit h))
    | inr other ↦ (let h = rw other at h in miss h)
  ]

  pub apply_directive-Change :
      (n : ℕ) (directive : Bytes) (p' : Policy)
      → apply_directive number n arg p directive ≡ ok p'
      → Change directive p'
  unfolding apply_directive
  apply_directive-Change n directive p' h =
      if-Change directive _ _ _ p' (allow_syscall-Change n p')
        (if-Change directive _ _ _ p' (allow_socket-Change n p') (
          if-Change directive _ _ _ p' (allow_netlink-Change n p')
            (if-Change directive _ _ _ p' (keep_capability-Change n p') (λ k. cc))))
        h

-- A line with a text, of a file that is accepted: its two words were not seen, it was applied, and
-- the lines behind it were read.
pub parse_lines-taken :
    (number : Bytes → ℤ) (n : ℕ) (raw : Bytes) (lines : List Bytes) (seen : List (Bytes × Bytes))
    (p p' : Policy)
    → is_blank (line_text raw) ≡ false
    → parse_lines number n (raw ∷ lines) seen p ≡ ok p'
    → (directive : Bytes) × (arg : Bytes) × (q : Policy) × (two_words n
          (split_whitespace (line_text raw))
        ≡ ok (directive, arg))
      × (has_seen seen directive arg ≡ false)
      × (apply_directive number n arg p directive ≡ ok q)
      × (parse_lines number (n + 1) lines ((directive, arg) ∷ seen) q ≡ ok p')
unfolding parse_lines
parse_lines-taken number n raw lines seen p p' text h =
    let k = rw text at h in
    let ((directive, arg), split, taken) =
      >>=-eq-ok (two_words n (split_whitespace (line_text raw))) _ k in
    let (q, applied, later) =
      >>=-eq-ok
        (if has_seen seen directive arg
          then at_line n (duplicate_directive directive arg)
          else apply_directive number n arg p directive)
        _ taken in
    let (new, change) = if-ok (has_seen seen directive arg) n _ _ q applied in
    (directive, arg, q, split, new, change, later)

-- What holds of the empty policy, and is kept by a change of a line that was not seen, holds of
-- what the loop returns.
module _ (number : Bytes → ℤ) (P : List (Bytes × Bytes) → Policy → Type 0)
    (keep : (seen : List (Bytes × Bytes)) (directive arg : Bytes) (p p' : Policy)
      → P seen p
      → has_seen seen directive arg ≡ false
      → Change number arg p directive p'
      → P ((directive, arg) ∷ seen) p') where
  pub parse_lines-keeps :
      (n : ℕ) (lines : List Bytes) (seen : List (Bytes × Bytes)) (p p' : Policy)
      → P seen p
      → parse_lines number n lines seen p ≡ ok p'
      → (seen' : List (Bytes × Bytes)) × P seen' p'
  unfolding parse_lines
  parse_lines-keeps n [] seen p p' v h = (seen, rw (← ok-eq h) v)
  parse_lines-keeps n (raw ∷ lines) seen p p' v h = elim (Bool-cases (is_blank (line_text raw))) [
    | inl blank ↦ (let h = rw blank at h in parse_lines-keeps (n + 1) lines seen p p' v h)
    | inr text ↦
        let (directive, arg, q, _, new, change, later) =
          parse_lines-taken number n raw lines seen p p' text h in
        parse_lines-keeps (n + 1) lines ((directive, arg) ∷ seen) q p'
          (keep seen directive arg p q v new
            (apply_directive-Change number arg p n directive q change))
          later
  ]
