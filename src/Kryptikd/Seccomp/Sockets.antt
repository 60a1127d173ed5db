-- ===== src/Kryptikd/Seccomp/Sockets.antt =====
-- The generated body of the socket rule: the loops of comparisons, and the two returns behind.
pub mod Families
use kryptik_os.Common.{
  and_then, and_then-some, ℕ, zero, suc, ◌+◌, ◌-◌, ◌*◌, ◌/◌, ◌%◌, ◌^◌, ◌<◌, ◌≤◌, ◌≡◌, refl, sym, ap,
  ◌∙◌, arith, Bool, true, false, not, ◌&&◌, ◌||◌, List, [], ◌∷◌, ◌++◌, Option, none, some, ltb, leb,
  ◌==◌, if◌then◌else◌, length, u32_mod, inl, inr, Bool-cases, Option-cases, length-append,
}
use mathlib.Core.List.{append_assoc}
use mathlib.Core.Option.{some-injective}
use kryptik_os.Kryptikd.Seccomp.{
  Libc, SockFilter, stmt, jump, ld_w_abs, jeq_k, ret_k, ret_allow, errno_action, arg_lo, af_unix,
  af_inet, af_inet6, af_netlink, netlink_route, eafnosupport, SocketPolicy,
}
use kryptik_os.Kryptikd.Seccomp.Rules.{
  returns, netlink_part, cons_option, contains, add_families, add_protocols, off, compare_at,
  compare_all, socket_body, family_list, protocol_list,
}
use kryptik_os.Kryptikd.Seccomp.Machine.{Call, load, step, run, run-skip}
use kryptik_os.Kryptikd.Seccomp.Blocks.{low, Returns, IsBody}

cons_option-some :
    (o : Option SockFilter) (os : Option (List SockFilter)) (is : List SockFilter)
    → cons_option o os ≡ some is
    → (i : SockFilter) × (js : List SockFilter) × (o ≡ some i) × (os ≡ some js) × (i ∷ js ≡ is)
unfolding cons_option
cons_option-some (some i) (some js) is h = (i, js, refl, refl, cc)
cons_option-some none os is h = cc
cons_option-some (some i) none is h = cc

-- The comparison itself: it is one of `jeq`, and its jumps are to ALLOW and, at the end, to DENY.
compare_at_lem :
    (idx allow_idx deny_idx x : ℕ) (i : SockFilter)
    → compare_at idx allow_idx deny_idx x ≡ some i
    → idx < allow_idx
    → i
      ≡ jump jeq_k x
          (allow_idx - (idx + 1))
          (if idx + 1 == allow_idx then deny_idx - (idx + 1) else 0)
unfolding compare_at
compare_at_lem idx allow_idx deny_idx x i h lt = ground arith

-- A loop of comparisons: a hit skips to ALLOW; a miss of all of them skips to DENY if the loop
-- ends at ALLOW, and goes on behind the loop if not.
compare_all-run :
    (c : Call) (idx allow_idx deny_idx x : ℕ) (xs : List ℕ) (is rest : List SockFilter) (acc : ℕ)
    → compare_all idx allow_idx deny_idx (x ∷ xs) ≡ some is
    → idx + length (x ∷ xs) ≤ allow_idx
    → (run c 0 (is ++ rest) acc ≡ (
        if contains (x ∷ xs) acc
        then run c (allow_idx - (idx + length (x ∷ xs))) rest acc
        else run c
            (if idx + length (x ∷ xs) == allow_idx then deny_idx - (idx + length (x ∷ xs)) else 0)
            rest
            acc))
      × (length is ≡ length (x ∷ xs))
unfolding compare_all run
compare_all-run c idx allow_idx deny_idx x [] is rest acc h le =
    let (i, js, first, others, made) = cons_option-some _ _ is (unfold compare_all in h) in
    let jumps = compare_at_lem idx allow_idx deny_idx x i first (omega arith) in
    let none_left : [] ≡ js = some-injective [] js others in
    rw (← made, jumps, ← none_left) (ground arith, refl)
compare_all-run c idx allow_idx deny_idx x (y ∷ ys) is rest acc h le =
    let (i, js, first, others, made) = cons_option-some _ _ is (unfold compare_all in h) in
    let jumps = compare_at_lem idx allow_idx deny_idx x i first (omega arith) in
    let (later, long) =
      compare_all-run c (idx + 1) allow_idx deny_idx y ys js rest acc others (omega arith) in
    let far : allow_idx - (idx + 1) ≡ length js + (allow_idx - (idx + length (x ∷ y ∷ ys))) =
      omega (arith, long) in
    let hop = run-skip c js rest (allow_idx - (idx + length (x ∷ y ∷ ys))) acc in
    rw (← made, jumps, far) (ground (arith, later, hop), omega (arith, long))

-- What the two returns and the lists make of a call.
abbrev pub lists_action : Bool → List ℕ → List ℕ → Call → ℕ
lists_action netlink_block fams protos c =
    if contains fams (low c 0)
      || netlink_block && low c 0 == af_netlink && contains protos (low c 2)
    then ret_allow
    else errno_action eafnosupport

returns-run :
    (c : Call) (rest : List SockFilter) (acc : ℕ)
    → (run c 0 (returns ++ rest) acc ≡ some ret_allow)
      × (run c 1 (returns ++ rest) acc ≡ some (errno_action eafnosupport))
unfolding run
returns-run c rest acc = (ground arith, ground arith)

-- A loop that ends right before the returns.
last_loop-run :
    (c : Call) (idx allow_idx deny_idx x : ℕ) (xs : List ℕ) (is rest : List SockFilter) (acc : ℕ)
    → compare_all idx allow_idx deny_idx (x ∷ xs) ≡ some is
    → allow_idx ≡ idx + length (x ∷ xs)
    → deny_idx ≡ allow_idx + 1
    → (run c 0 (is ++ (returns ++ rest)) acc
        ≡ some (if contains (x ∷ xs) acc then ret_allow else errno_action eafnosupport))
      × (length is ≡ length (x ∷ xs))
last_loop-run c idx allow_idx deny_idx x xs is rest acc h at_allow at_deny =
    let (loop, long) =
      compare_all-run c idx allow_idx deny_idx x xs is (returns ++ rest) acc h (omega arith) in
    let hit : allow_idx - (idx + length (x ∷ xs)) ≡ 0 = omega arith in
    let miss : deny_idx - (idx + length (x ∷ xs)) ≡ 1 = omega arith in
    let ends : (idx + length (x ∷ xs) == allow_idx) ≡ true = ground arith in
    let (allows, denies) = returns-run c rest acc in
    (loop ∙ rw (hit, miss, ends) (ground (arith, allows, denies)), long)

off_lem : (from to d : ℕ) → off from to ≡ some d → d ≡ to - (from + 1)
unfolding off
off_lem from to d h = ground arith

netlink_part-run :
    (c : Call) (n allow_idx deny_idx p : ℕ) (ps : List ℕ) (block rest : List SockFilter)
    → netlink_part n allow_idx deny_idx (p ∷ ps) ≡ some block
    → allow_idx ≡ 1 + n + (2 + length (p ∷ ps))
    → deny_idx ≡ allow_idx + 1
    → (run c 0 (block ++ (returns ++ rest)) (low c 0)
        ≡ some (
            if low c 0 == af_netlink && contains (p ∷ ps) (low c 2)
            then ret_allow
            else errno_action eafnosupport))
      × (length block ≡ 2 + length (p ∷ ps))
unfolding netlink_part run
netlink_part-run c n allow_idx deny_idx p ps block rest h at_allow at_deny =
    let (miss, missed, h1) = and_then-some (off (1 + n) deny_idx) _ h in
    let (hits, found, h2) =
      and_then-some (compare_all (1 + n + 2) allow_idx deny_idx (p ∷ ps)) _ h1 in
    let (loop, long) =
      last_loop-run c (1 + n + 2) allow_idx deny_idx p ps hits rest (low c 2) found (omega arith)
        at_deny in
    let far : miss ≡ suc (length hits + 1) =
      omega (arith, off_lem (1 + n) deny_idx miss missed, long) in
    let hop = run-skip c hits (returns ++ rest) 1 (low c 0) in
    let denies = (returns-run c rest (low c 0)).1 in
    let body : _ ≡ block = some-injective _ block h2 in
    rw (← body, far) (ground (arith, loop, hop, denies), omega (arith, long))

regroup :
    (hits block rest : List SockFilter)
    → (hits ++ (block ++ returns)) ++ rest ≡ hits ++ (block ++ (returns ++ rest))
regroup hits block rest =
    append_assoc hits (block ++ returns) rest ∙ ap (◌++◌ hits) (append_assoc block returns rest)

-- Behind the load, the loop over the families before the netlink block.
families-run :
    (c : Call) (f p : ℕ) (fs ps : List ℕ) (hits block rest : List SockFilter)
    → compare_all 1
        (1 + length (f ∷ fs) + (2 + length (p ∷ ps)))
        (1 + length (f ∷ fs) + (2 + length (p ∷ ps)) + 1)
        (f ∷ fs)
      ≡ some hits
    → netlink_part
        (length (f ∷ fs))
        (1 + length (f ∷ fs) + (2 + length (p ∷ ps)))
        (1 + length (f ∷ fs) + (2 + length (p ∷ ps)) + 1)
        (p ∷ ps)
      ≡ some block
    → (run c 0 (hits ++ (block ++ (returns ++ rest))) (low c 0)
        ≡ some (lists_action true (f ∷ fs) (p ∷ ps) c))
      × (length hits + length block ≡ length (f ∷ fs) + (2 + length (p ∷ ps)))
families-run c f p fs ps hits block rest found made =
    let n = length (f ∷ fs) in
    let allow_idx = 1 + n + (2 + length (p ∷ ps)) in
    let (loop, long) =
      compare_all-run c 1 allow_idx (allow_idx + 1) f fs hits (block ++ (returns ++ rest)) (low c 0)
        found (omega arith) in
    let (netlink, size) =
      netlink_part-run c n allow_idx (allow_idx + 1) p ps block rest made refl refl in
    let hit : allow_idx - (1 + n) ≡ length block + 0 = omega (arith, size) in
    let goes_on : (1 + n == allow_idx) ≡ false = ground arith in
    let hop = run-skip c block (returns ++ rest) 0 (low c 0) in
    let allows = (returns-run c rest (low c 0)).0 in
    (loop ∙ rw (hit, goes_on, hop, allows, netlink) (ground arith), omega (arith, long, size))

-- The whole body of the rule.
pub socket_body-IsBody :
    (c : Call) (netlink_block : Bool) (f p : ℕ) (fs ps : List ℕ) (body : List SockFilter)
    → socket_body netlink_block (f ∷ fs) (p ∷ ps) ≡ some body
    → length fs + length ps ≤ 240
    → IsBody c body (lists_action netlink_block (f ∷ fs) (p ∷ ps) c)
unfolding socket_body run
socket_body-IsBody c true f p fs ps body h le =
    let (hits, found, h1) = and_then-some (compare_all 1 _ _ (f ∷ fs)) _ h in
    let (block, made, h2) = and_then-some (netlink_part _ _ _ (p ∷ ps)) _ h1 in
    let (families, size) = families-run c f p fs ps hits block [] found made in
    rw (← some-injective _ body h2) (record {
      returns = λ rest acc.
          rw (regroup hits block rest) (families-run c f p fs ps hits block rest found made).0;
      short =
          omega (arith, size, length-append hits (block ++ returns), length-append block returns);
    })
socket_body-IsBody c false f p fs ps body h le =
    let (hits, found, h1) = and_then-some (compare_all 1 _ _ (f ∷ fs)) _ h in
    let allow_idx = 1 + length (f ∷ fs) + 0 in
    let (loop, long) =
      last_loop-run c 1 allow_idx (allow_idx + 1) f fs hits [] (low c 0) found (omega arith) refl in
    rw (← some-injective _ body h1) (record {
      returns = λ rest acc. rw (regroup hits [] rest) (
          (last_loop-run c 1 allow_idx (allow_idx + 1) f fs hits rest (low c 0) found (omega arith)
            refl).0
          ∙ ground arith);
      short = omega (arith, long, length-append hits returns);
    })
