-- ===== src/Kryptikd/Policy.antt =====
-- compartments/kryptikd/src/policy.rs: the policy file of a zone. A text is the list of its code
-- points. The messages of errors and warnings are not modelled: an error is its line and its
-- reason, and a warning its line and the name it is about.
pub mod Changes
pub mod Tracks
pub mod Sound
pub mod Filter
pub mod Refusals
mod Tests
use kryptik_os.Common.{
  ℕ, ◌+◌, Bool, true, false, not, ◌&&◌, ◌||◌, List, [], ◌∷◌, ◌++◌, Option, none, some, Result, ok,
  err, ◌>>=◌, ok_or, ◌==◌, if◌then◌else◌, length, Bytes, ascii, eq_bytes, is_blank, trim, before,
  split_whitespace, text_lines, ℤ, contains_ℤ,
}
use kryptik_os.Kryptikd.Seccomp.{
  SocketPolicy, af_unix, af_inet, af_inet6, af_netlink, netlink_route,
}
use kryptik_os.Kryptikd.Seccomp.Rules.{contains}
use kryptik_os.Kryptikd.Seccomp.Names.{number_in, base_allowlist, is_denied, syscall_by_name}
use kryptik_os.Kryptikd.Caps.{cap_by_name, keepable, kept_always, privsep, nic_only, all_in}

-- `SOCKET_FAMILY_NAMES`
abbrev pub socket_family_names : List (Bytes × ℕ)
socket_family_names =
    (ascii "AF_UNIX", af_unix)
    ∷ (ascii "AF_INET", af_inet)
    ∷ (ascii "AF_INET6", af_inet6)
    ∷ (ascii "AF_NETLINK", af_netlink)
    ∷ (ascii "AF_PACKET", 17)
    ∷ (ascii "AF_KEY", 15)
    ∷ (ascii "AF_RDS", 21)
    ∷ (ascii "AF_CAN", 29)
    ∷ (ascii "AF_TIPC", 30)
    ∷ (ascii "AF_BLUETOOTH", 31)
    ∷ (ascii "AF_ALG", 38)
    ∷ (ascii "AF_VSOCK", 40)
    ∷ (ascii "AF_XDP", 44)
    ∷ []

-- `NETLINK_PROTOCOL_NAMES`
abbrev pub netlink_protocol_names : List (Bytes × ℕ)
netlink_protocol_names =
    (ascii "NETLINK_ROUTE", netlink_route)
    ∷ (ascii "NETLINK_XFRM", 6)
    ∷ (ascii "NETLINK_AUDIT", 9)
    ∷ (ascii "NETLINK_NETFILTER", 12)
    ∷ (ascii "NETLINK_KOBJECT_UEVENT", 15)
    ∷ (ascii "NETLINK_GENERIC", 16)
    ∷ []

abbrev pub socket_family_by_name : Bytes → Option ℕ
socket_family_by_name name = number_in socket_family_names name

abbrev pub netlink_protocol_by_name : Bytes → Option ℕ
netlink_protocol_by_name name = number_in netlink_protocol_names name

-- `BASE_SOCKET_FAMILIES`
abbrev pub base_socket_families : List ℕ
base_socket_families = af_unix ∷ af_inet ∷ af_inet6 ∷ af_netlink ∷ []

-- `Policy`, less the path it was read from.
pub record Policy : Type 0 where
  pub extra_syscalls : List ℤ
  pub extra_syscall_names : List Bytes
  pub sockets : SocketPolicy
  pub socket_names : List Bytes
  pub netlink_names : List Bytes
  pub keep_caps : List ℕ
  pub keep_cap_names : List Bytes
  pub warnings : List (ℕ × Bytes)

-- `Policy::default`
abbrev pub no_policy : Policy
no_policy = record {
  extra_syscalls = [];
  extra_syscall_names = [];
  sockets = record { families = []; netlink_protocols = []; netlink_all = false };
  socket_names = [];
  netlink_names = [];
  keep_caps = [];
  keep_cap_names = [];
  warnings = [];
}

pub data Reason : Type 0 where
  one_argument : Bytes → Reason
  duplicate_directive : Bytes → Bytes → Reason
  unknown_syscall denied_syscall unknown_family unknown_netlink unknown_capability : Bytes → Reason
  not_keepable unknown_directive : Bytes → Reason
  privsep_apart : Reason
  nic_zone_only : Bytes → Reason

-- `PolicyError::Line`: the line's number, and what is wrong with it.
pub record PolicyError : Type 0 where
  pub line : ℕ
  pub reason : Reason

-- `err`
abbrev pub at_line : {A : Type 0} → ℕ → Reason → Result PolicyError A
at_line n reason = err (record { line = n; reason = reason })

-- A line that the base policy already allows.
abbrev pub warn : ℕ → Bytes → Policy → Policy
warn n arg p = record p { warnings = p.warnings ++ (n, arg) ∷ [] }

abbrev pub add_syscall : Bytes → ℤ → Policy → Policy
add_syscall arg nr p = record p {
  extra_syscalls = p.extra_syscalls ++ nr ∷ [];
  extra_syscall_names = p.extra_syscall_names ++ arg ∷ [];
}

abbrev pub add_family : Bytes → ℕ → Policy → Policy
add_family arg fam p = record p {
  sockets = record {
    families = p.sockets.families ++ fam ∷ [];
    netlink_protocols = p.sockets.netlink_protocols;
    netlink_all = p.sockets.netlink_all;
  };
  socket_names = p.socket_names ++ arg ∷ [];
}

abbrev pub open_netlink : Bytes → Policy → Policy
open_netlink arg p = record p {
  sockets = record {
    families = p.sockets.families;
    netlink_protocols = p.sockets.netlink_protocols;
    netlink_all = true;
  };
  socket_names = p.socket_names ++ arg ∷ [];
}

abbrev pub add_protocol : Bytes → ℕ → Policy → Policy
add_protocol arg proto p = record p {
  sockets = record {
    families = p.sockets.families;
    netlink_protocols = p.sockets.netlink_protocols ++ proto ∷ [];
    netlink_all = p.sockets.netlink_all;
  };
  netlink_names = p.netlink_names ++ arg ∷ [];
}

abbrev pub add_cap : Bytes → ℕ → Policy → Policy
add_cap arg c p = record p {
  keep_caps = p.keep_caps ++ c ∷ [];
  keep_cap_names = p.keep_cap_names ++ arg ∷ [];
}

module _ (number : Bytes → ℤ) (n : ℕ) (arg : Bytes) (p : Policy) where
  unfoldable pub allow_syscall : Result PolicyError Policy
  allow_syscall = elim (syscall_by_name number arg) [
    | none ↦ at_line n (unknown_syscall arg)
    | some nr ↦
        if is_denied number nr
        then at_line n (denied_syscall arg)
        else if contains_ℤ (base_allowlist number) nr
        then ok (warn n arg p)
        else ok (add_syscall arg nr p)
  ]

  unfoldable pub allow_socket : Result PolicyError Policy
  allow_socket = elim (socket_family_by_name arg) [
    | none ↦ at_line n (unknown_family arg)
    | some fam ↦
        if fam == af_netlink
        then ok (open_netlink arg p)
        else if contains base_socket_families fam
        then ok (warn n arg p)
        else ok (add_family arg fam p)
  ]

  unfoldable pub allow_netlink : Result PolicyError Policy
  allow_netlink = elim (netlink_protocol_by_name arg) [
    | none ↦ at_line n (unknown_netlink arg)
    | some proto ↦
        if proto == netlink_route then ok (warn n arg p) else ok (add_protocol arg proto p)
  ]

  unfoldable pub keep_capability : Result PolicyError Policy
  keep_capability = elim (cap_by_name arg) [
    | none ↦ at_line n (unknown_capability arg)
    | some c ↦
        if not (contains keepable c)
        then at_line n (not_keepable arg)
        else if c == kept_always
        then ok (warn n arg p)
        else ok (add_cap arg c p)
  ]

  -- The match on a directive.
  unfoldable pub apply_directive : Bytes → Result PolicyError Policy
  apply_directive directive =
      if eq_bytes directive (ascii "allow-syscall")
      then allow_syscall
      else if eq_bytes directive (ascii "allow-socket")
      then allow_socket
      else if eq_bytes directive (ascii "allow-netlink")
      then allow_netlink
      else if eq_bytes directive (ascii "keep-capability")
      then keep_capability
      else at_line n (unknown_directive directive)

-- The words of a line: a directive and its argument.
abbrev pub two_words : ℕ → List Bytes → Result PolicyError (Bytes × Bytes)
two_words n [] = at_line n (one_argument [])
two_words n (directive ∷ []) = at_line n (one_argument directive)
two_words n (directive ∷ arg ∷ []) = ok (directive, arg)
two_words n (directive ∷ arg ∷ other ∷ more) = at_line n (one_argument directive)

-- `seen`: the directives so far with their arguments.
abbrev pub has_seen : List (Bytes × Bytes) → Bytes → Bytes → Bool
has_seen [] directive arg = false
has_seen ((d, a) ∷ seen) directive arg =
    eq_bytes d directive && eq_bytes a arg || has_seen seen directive arg

-- A line's text: what stands before a comment, trimmed.
abbrev pub line_text : Bytes → Bytes
line_text raw = trim (before b'#' raw)

-- The loop of `parse` over the lines, from a number on.
unfoldable pub parse_lines :
    (Bytes → ℤ) → ℕ → List Bytes → List (Bytes × Bytes) → Policy → Result PolicyError Policy
parse_lines number n [] seen p = ok p
parse_lines number n (raw ∷ lines) seen p =
    let skipped = parse_lines number (n + 1) lines seen p in
    let words = two_words n (split_whitespace (line_text raw)) in
    let taken = words >>= λ (directive, arg).
    (if has_seen seen directive arg
      then at_line n (duplicate_directive directive arg)
      else apply_directive number n arg p directive)
    >>= λ p'. parse_lines number (n + 1) lines ((directive, arg) ∷ seen) p' in
    if is_blank (line_text raw) then skipped else taken

-- The privileged separation's capabilities are kept together or not at all.
abbrev pub none_in : List ℕ → List ℕ → Bool
none_in [] keep = true
none_in (c ∷ cs) keep = not (contains keep c) && none_in cs keep

unfoldable pub check_privsep : Policy → Result PolicyError Policy
check_privsep p =
    if none_in privsep p.keep_caps || all_in privsep p.keep_caps
    then ok p
    else at_line 0 privsep_apart

-- `parse`
unfoldable pub parse_policy : (Bytes → ℤ) → Bytes → Result PolicyError Policy
parse_policy number text = do
  p ← parse_lines number 1 (text_lines text) [] no_policy
  check_privsep p

-- `Policy::check_for_zone`, by whether the zone is the one that owns the NIC.
unfoldable pub check_for_zone : Bool → List ℕ → List Bytes → Result PolicyError Bool
check_for_zone nic (c ∷ caps) (name ∷ names) =
    let rest = check_for_zone nic caps names in
    if not nic && contains nic_only c then at_line 0 (nic_zone_only name) else rest
check_for_zone nic _ _ = ok true
