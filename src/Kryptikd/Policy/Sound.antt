-- ===== src/Kryptikd/Policy/Sound.antt =====
-- The invariant of the loop of `parse` in compartments/kryptikd/src/policy.rs.
use kryptik_os.Common.{
  ℕ, ◌+◌, ◌≤◌, ◌≡◌, refl, arith, true, false, ◌||◌, List, [], ◌∷◌, ◌++◌, some, ok, >>=-eq-ok, ok-eq,
  ◌==◌, length, length-append, Bytes, ascii, has_text, length-le-table, text_lines, ℤ, inl, inr,
  Bool-cases,
}
use kryptik_os.Kryptikd.Seccomp.Rules.{contains}
use kryptik_os.Kryptikd.Seccomp.Names
use kryptik_os.Kryptikd.Seccomp.Names.{
  number_in, names, named, base_names, denied_names, addable_names, is_denied, syscall_by_name,
}
use kryptik_os.Kryptikd.Caps.{keepable, kept_always, privsep, all_in}
use kryptik_os.Kryptikd.Policy.{
  socket_family_names, netlink_protocol_names, Policy, no_policy, has_seen, parse_lines, none_in,
  check_privsep, parse_policy,
}
use kryptik_os.Kryptikd.Policy.Changes.{
  Change, warned, syscall, family, netlink, protocol, capability, parse_lines-keeps,
}
use kryptik_os.Kryptikd.Policy.Tracks.{texts, has_text-number_in, Tracks, Tracks-more, Tracks-new}

abbrev pub Keepable : List ℕ → Type 0
Keepable [] = Unit
Keepable (c ∷ cs) = ((contains keepable c ≡ true) × ((c == kept_always) ≡ false)) × Keepable cs

Keepable-snoc :
    (cs : List ℕ) (c : ℕ)
    → Keepable cs
    → contains keepable c ≡ true
    → (c == kept_always) ≡ false
    → Keepable (cs ++ c ∷ [])
Keepable-snoc [] c all h new = ((h, new), tt)
Keepable-snoc (x ∷ cs) c all h new = (all.0, Keepable-snoc cs c all.1 h new)

abbrev pub Addable : (Bytes → ℤ) → List ℤ → Type 0
Addable number [] = Unit
Addable number (v ∷ vs) =
    ((name : Bytes) × (syscall_by_name number name ≡ some v) × (is_denied number v ≡ false))
    × Addable number vs

Addable-snoc :
    (number : Bytes → ℤ) (vs : List ℤ) (v : ℤ) (name : Bytes)
    → Addable number vs
    → syscall_by_name number name ≡ some v
    → is_denied number v ≡ false
    → Addable number (vs ++ v ∷ [])
Addable-snoc number [] v name all found fine = ((name, found, fine), tt)
Addable-snoc number (x ∷ vs) v name all found fine =
    (all.0, Addable-snoc number vs v name all.1 found fine)

-- A directive's entries and their names.
record Listed {ℓ} {A : Type ℓ} (directive : Bytes) (table : List Bytes)
    (seen : List (Bytes × Bytes)) (entries : List A) (names : List Bytes) : Type ℓ where
  tracked : Tracks directive table seen names
  counted : length entries ≤ length names

module _ {ℓ} {A : Type ℓ} (directive : Bytes) (table : List Bytes) (seen : List (Bytes × Bytes))
    (entries : List A) (names : List Bytes) where
  Listed-more :
      (d a : Bytes)
      → Listed directive table seen entries names
      → Listed directive table ((d, a) ∷ seen) entries names
  Listed-more d a r = record {
    tracked = Tracks-more directive table seen names d a r.tracked;
    counted = r.counted;
  }

  Listed-bound : Listed directive table seen entries names → length entries ≤ length table
  Listed-bound r =
      omega (arith, r.counted, length-le-table names table r.tracked.distinct r.tracked.known)

  -- One name more, and one entry more at most.
  Listed-new :
      (entries' : List A) (a : Bytes)
      → length entries' ≤ length entries + 1
      → Listed directive table seen entries names
      → has_seen seen directive a ≡ false
      → has_text table a ≡ true
      → Listed directive table ((directive, a) ∷ seen) entries' (names ++ a ∷ [])
  Listed-new entries' a more r new member = record {
    tracked = Tracks-new directive table seen names a r.tracked new member;
    counted = omega (arith, more, r.counted, length-append names (a ∷ []));
  }

-- The invariant of the loop.
record Holds (number : Bytes → ℤ) (seen : List (Bytes × Bytes)) (p : Policy) : Type 0 where
  calls :
      Listed
        (ascii "allow-syscall")
        (texts (Names.names number))
        seen
        p.extra_syscalls
        p.extra_syscall_names
  addable : Addable number p.extra_syscalls
  families :
      Listed
        (ascii "allow-socket")
        (texts socket_family_names)
        seen
        p.sockets.families
        p.socket_names
  protocols :
      Listed
        (ascii "allow-netlink")
        (texts netlink_protocol_names)
        seen
        p.sockets.netlink_protocols
        p.netlink_names
  caps : Keepable p.keep_caps
  named_caps : length p.keep_caps ≡ length p.keep_cap_names

nothing-Listed :
    {A : Type 0} (directive : Bytes) (table : List Bytes) → Listed {A = A} directive table [] [] []
nothing-Listed directive table = record {
  tracked = record { distinct = refl; known = tt; all_seen = tt };
  counted = omega arith;
}

no_policy-Holds : (number : Bytes → ℤ) → Holds number [] no_policy
no_policy-Holds number = record {
  calls = nothing-Listed _ _;
  addable = tt;
  families = nothing-Listed _ _;
  protocols = nothing-Listed _ _;
  caps = tt;
  named_caps = refl;
}

module _ (number : Bytes → ℤ) (seen : List (Bytes × Bytes)) (arg : Bytes) (p : Policy) where
  Change-Holds :
      (directive : Bytes) (p' : Policy)
      → Holds number seen p
      → has_seen seen directive arg ≡ false
      → Change number arg p directive p'
      → Holds number ((directive, arg) ∷ seen) p'
  Change-Holds directive p' h new (warned _ n) = record {
    calls = Listed-more _ _ seen _ _ directive arg h.calls;
    addable = h.addable;
    families = Listed-more _ _ seen _ _ directive arg h.families;
    protocols = Listed-more _ _ seen _ _ directive arg h.protocols;
    caps = h.caps;
    named_caps = h.named_caps;
  }
  Change-Holds directive p' h new (syscall nr found fine other) = record {
    calls =
        Listed-new _ _ seen _ _ _ arg (omega (arith, length-append p.extra_syscalls (nr ∷ [])))
          h.calls new (has_text-number_in (Names.names number) arg nr found);
    addable = Addable-snoc number p.extra_syscalls nr arg h.addable found fine;
    families = Listed-more _ _ seen _ _ directive arg h.families;
    protocols = Listed-more _ _ seen _ _ directive arg h.protocols;
    caps = h.caps;
    named_caps = h.named_caps;
  }
  Change-Holds directive p' h new (family fam found other) = record {
    calls = Listed-more _ _ seen _ _ directive arg h.calls;
    addable = h.addable;
    families =
        Listed-new _ _ seen _ _ _ arg (omega (arith, length-append p.sockets.families (fam ∷ [])))
          h.families new (has_text-number_in socket_family_names arg fam found);
    protocols = Listed-more _ _ seen _ _ directive arg h.protocols;
    caps = h.caps;
    named_caps = h.named_caps;
  }
  Change-Holds directive p' h new (netlink fam found) = record {
    calls = Listed-more _ _ seen _ _ directive arg h.calls;
    addable = h.addable;
    families =
        Listed-new _ _ seen _ _ _ arg (omega arith) h.families new
          (has_text-number_in socket_family_names arg fam found);
    protocols = Listed-more _ _ seen _ _ directive arg h.protocols;
    caps = h.caps;
    named_caps = h.named_caps;
  }
  Change-Holds directive p' h new (protocol proto found) = record {
    calls = Listed-more _ _ seen _ _ directive arg h.calls;
    addable = h.addable;
    families = Listed-more _ _ seen _ _ directive arg h.families;
    protocols =
        Listed-new _ _ seen _ _ _ arg
          (omega (arith, length-append p.sockets.netlink_protocols (proto ∷ []))) h.protocols new
          (has_text-number_in netlink_protocol_names arg proto found);
    caps = h.caps;
    named_caps = h.named_caps;
  }
  Change-Holds directive p' h new (capability c keeps other) = record {
    calls = Listed-more _ _ seen _ _ directive arg h.calls;
    addable = h.addable;
    families = Listed-more _ _ seen _ _ directive arg h.families;
    protocols = Listed-more _ _ seen _ _ directive arg h.protocols;
    caps = Keepable-snoc p.keep_caps c h.caps keeps other;
    named_caps = omega (
      arith,
      h.named_caps,
      length-append p.keep_caps (c ∷ []),
      length-append p.keep_cap_names (arg ∷ []),
    );
  }

parse-Holds :
    (number : Bytes → ℤ) (text : Bytes) (p : Policy)
    → parse_policy number text ≡ ok p
    → (seen : List (Bytes × Bytes)) × Holds number seen p
unfolding parse_policy check_privsep
parse-Holds number text p h =
    let (q, read, checked) =
      >>=-eq-ok (parse_lines number 1 (text_lines text) [] no_policy) check_privsep h in
    let (seen, holds) =
      parse_lines-keeps number (Holds number)
        (λ seen directive arg p p' h new change.
          Change-Holds number seen arg p directive p' h new change)
        1 (text_lines text) [] no_policy q (no_policy-Holds number) read in
    elim (Bool-cases (none_in privsep q.keep_caps || all_in privsep q.keep_caps)) [
      | inl fine ↦ let e = rw fine at checked in (seen, rw (← ok-eq e) holds)
      | inr apart ↦ let e = rw apart at checked in cc
    ]

-- The calls that a file adds have names, are not denied, and are few.
pub parse_policy-Addable :
    (number : Bytes → ℤ) (text : Bytes) (p : Policy)
    → parse_policy number text ≡ ok p
    → Addable number p.extra_syscalls × (length p.extra_syscalls ≤ 400)
unfolding base_names denied_names addable_names named
parse_policy-Addable number text p h =
    let (seen, holds) = parse-Holds number text p h in
    let bound = Listed-bound _ _ seen _ _ holds.calls in (holds.addable, omega (arith, bound))

-- The socket families and netlink protocols that a file adds are 19 at most: no line is read twice.
pub parse_policy-sockets :
    (number : Bytes → ℤ) (text : Bytes) (p : Policy)
    → parse_policy number text ≡ ok p
    → length p.sockets.families + length p.sockets.netlink_protocols ≤ 19
parse_policy-sockets number text p h =
    let (seen, holds) = parse-Holds number text p h in
    omega
      (arith, Listed-bound _ _ seen _ _ holds.families, Listed-bound _ _ seen _ _ holds.protocols)

pub parse_policy-Keepable :
    (number : Bytes → ℤ) (text : Bytes) (p : Policy)
    → parse_policy number text ≡ ok p
    → Keepable p.keep_caps × (length p.keep_caps ≡ length p.keep_cap_names)
parse_policy-Keepable number text p h =
    let (seen, holds) = parse-Holds number text p h in (holds.caps, holds.named_caps)
