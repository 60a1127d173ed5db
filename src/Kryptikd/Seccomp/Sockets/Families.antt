-- ===== src/Kryptikd/Seccomp/Sockets/Families.antt =====
-- The socket rule of a policy: the lists that it collects, and what a call of socket(2) gets.
use kryptik_os.Common.{
  Bool-cases, inl, inr, ℕ, suc, ◌+◌, ◌≤◌, ◌≡◌, refl, sym, ap, ◌∙◌, arith, Bool, true, not, ◌&&◌,
  ◌||◌, List, [], ◌∷◌, ◌++◌, some, ◌==◌, ==_iff, if◌then◌else◌, length, length-append,
}
use kryptik_os.Kryptikd.Seccomp.{
  Libc, ret_allow, errno_action, SockFilter, af_unix, af_inet, af_inet6, af_netlink, netlink_route,
  eafnosupport, SocketPolicy,
}
use kryptik_os.Kryptikd.Seccomp.Rules.{
  socket_families, rule_body, contains, add_families, add_protocols, socket_body, family_list,
  protocol_list,
}
use kryptik_os.Kryptikd.Seccomp.Machine.{Call}
use kryptik_os.Kryptikd.Seccomp.Blocks.{low, IsBody}
use kryptik_os.Kryptikd.Seccomp.Sockets.{lists_action, socket_body-IsBody}

pub contains-append :
    (xs ys : List ℕ) (x : ℕ) → contains (xs ++ ys) x ≡ (contains xs x || contains ys x)
contains-append [] ys x = refl
contains-append (y ∷ xs) ys x = ground (arith, contains-append xs ys x)

-- What a loop that collects a list of a policy's does.
record Collects (fams all : List ℕ) (extra : ℕ → Bool) (n : ℕ) : Type 0 where
  member : (x : ℕ) → contains all x ≡ (contains fams x || extra x)
  size : length all ≤ length fams + n

contains_seen :
    (fams : List ℕ) (f x : ℕ) → contains fams f ≡ true → (f == x) ≡ true → contains fams x ≡ true
contains_seen fams f x h e = ground (arith, ap (contains fams) ((==_iff f x).0 e))

grown :
    (fams : List ℕ) (f : ℕ) (b : Bool)
    → length (if b then fams ++ f ∷ [] else fams) ≤ suc (length fams)
grown fams f b = ground (arith, length-append fams (f ∷ []))

add_families-Collects :
    (fs fams : List ℕ)
    → Collects fams (add_families fams fs) (λ x. contains fs x && not (x == af_netlink)) (length fs)
unfolding add_families
add_families-Collects [] fams = record { member = λ x. ground arith; size = omega arith }
add_families-Collects (f ∷ fs) fams =
    let fams' = if not (contains fams f) && not (f == af_netlink) then fams ++ f ∷ [] else fams in
    let ih = add_families-Collects fs fams' in
    record {
      member = λ x.
          ih.member x ∙ ground (arith, contains-append fams (f ∷ []) x, contains_seen fams f x);
      size = omega (arith, ih.size, grown fams f (not (contains fams f) && not (f == af_netlink)));
    }

add_protocols-Collects :
    (ps protos : List ℕ) → Collects protos (add_protocols protos ps) (contains ps) (length ps)
unfolding add_protocols
add_protocols-Collects [] protos = record { member = λ x. ground arith; size = omega arith }
add_protocols-Collects (p ∷ ps) protos =
    let protos' = if not (contains protos p) then protos ++ p ∷ [] else protos in
    let ih = add_protocols-Collects ps protos' in
    record {
      member = λ x.
          ih.member x ∙ ground (arith, contains-append protos (p ∷ []) x, contains_seen protos p x);
      size = omega (arith, ih.size, grown protos p (not (contains protos p)));
    }

-- The loops keep the head of their list.
add_families-cons :
    (f : ℕ) (fams fs : List ℕ) → (rest : List ℕ) × (add_families (f ∷ fams) fs ≡ f ∷ rest)
unfolding add_families
add_families-cons f fams [] = (fams, refl)
add_families-cons f fams (x ∷ xs) =
    elim (Bool-cases (not (contains (f ∷ fams) x) && not (x == af_netlink))) [
      | inl new ↦ rw new (add_families-cons f (fams ++ x ∷ []) xs)
      | inr old ↦ rw old (add_families-cons f fams xs)
    ]

add_protocols-cons :
    (p : ℕ) (protos ps : List ℕ) → (rest : List ℕ) × (add_protocols (p ∷ protos) ps ≡ p ∷ rest)
unfolding add_protocols
add_protocols-cons p protos [] = (protos, refl)
add_protocols-cons p protos (x ∷ xs) = elim (Bool-cases (not (contains (p ∷ protos) x))) [
  | inl new ↦ rw new (add_protocols-cons p (protos ++ x ∷ []) xs)
  | inr old ↦ rw old (add_protocols-cons p protos xs)
]

-- What a zone hears of socket(2): the families that the base and the policy name, and netlink
-- with the protocols that they name, or with any.
abbrev pub socket_action : SocketPolicy → Call → ℕ
socket_action s c =
    let family = low c 0 in
    if contains (af_unix ∷ af_inet ∷ af_inet6 ∷ []) family
      || contains s.families family && not (family == af_netlink)
    then ret_allow
    else if family == af_netlink
        && (s.netlink_all || contains (netlink_route ∷ s.netlink_protocols) (low c 2))
    then ret_allow
    else errno_action eafnosupport

lists-eq-socket :
    (s : SocketPolicy) (c : Call)
    → lists_action (not s.netlink_all) (family_list s) (protocol_list s) c ≡ socket_action s c
lists-eq-socket s c =
    let base = af_unix ∷ af_inet ∷ af_inet6 ∷ [] in
    let fams = add_families base s.families in
    let member = (add_families-Collects s.families base).member (low c 0) in
    let protocol =
      (add_protocols-Collects s.netlink_protocols (netlink_route ∷ [])).member (low c 2) in
    let all = contains-append fams (af_netlink ∷ []) (low c 0) in
    ground (arith, member, protocol, all)

pub family_list-cons :
    (s : SocketPolicy)
    → (rest : List ℕ) × (family_list s ≡ af_unix ∷ rest) × (length rest ≤ 3 + length s.families)
family_list-cons s =
    let base = af_unix ∷ af_inet ∷ af_inet6 ∷ [] in
    let (rest, made) = add_families-cons af_unix (af_inet ∷ af_inet6 ∷ []) s.families in
    let size : length (af_unix ∷ rest) ≤ length base + length s.families =
      omega (arith, ap length made, (add_families-Collects s.families base).size) in
    elim (Bool-cases s.netlink_all) [
      | inl all ↦ (
        rest ++ af_netlink ∷ [],
        rw (all, made),
        omega (arith, size, length-append rest (af_netlink ∷ [])),
      )
      | inr block ↦ (rest, rw (block, made), omega (arith, size))
    ]

pub protocol_list-cons :
    (s : SocketPolicy)
    → (rest : List ℕ) × (protocol_list s ≡ netlink_route ∷ rest)
      × (length rest ≤ length s.netlink_protocols)
protocol_list-cons s =
    let (rest, made) = add_protocols-cons netlink_route [] s.netlink_protocols in
    let size : length (netlink_route ∷ rest) ≤ 1 + length s.netlink_protocols = omega (
      arith,
      ap length made,
      (add_protocols-Collects s.netlink_protocols (netlink_route ∷ [])).size,
    ) in
    (rest, made, omega (arith, size))

-- The body that is generated for a policy of a bounded size.
pub socket_families-IsBody :
    (libc : Libc) (c : Call) (deny_action : ℕ) (s : SocketPolicy) (body : List SockFilter)
    → length s.families + length s.netlink_protocols ≤ 230
    → rule_body libc socket_families deny_action s ≡ some body
    → IsBody c body (socket_action s c)
unfolding rule_body
socket_families-IsBody libc c deny_action s body le h =
    let (fs, families, many) = family_list-cons s in
    let (ps, protocols, few) = protocol_list-cons s in
    let block = not s.netlink_all in
    let made =
      ap (λ (protos : List ℕ). socket_body block (af_unix ∷ fs) protos) (sym protocols)
      ∙ ap (λ (fams : List ℕ). socket_body block fams (protocol_list s)) (sym families)
      ∙ h in
    rw (← lists-eq-socket s c, families, protocols)
      (socket_body-IsBody c block af_unix netlink_route fs ps body made (omega (arith, many, few)))
