-- ===== src/Kryptikd/Seccomp/Machine.antt =====
-- `evaluate_args` of compartments/kryptikd/src/seccomp/tests.rs: the interpreter of a program. Its
-- program counter only grows, so here it is the instructions left, with the number to skip.
use Prim.Native.Nat.{bit_and}
use kryptik_os.Common.{
  ◌∙◌, ℕ, zero, suc, ◌+◌, ◌-◌, ◌/◌, ◌%◌, ◌≡◌, ap, arith, Bool, not, ◌&&◌, List, [], ◌∷◌, ◌++◌,
  Option, none, some, ltb, leb, ◌==◌, if◌then◌else◌, length, u32_mod,
}
use kryptik_os.Kryptikd.Seccomp.{
  SockFilter, ld_w_abs, jeq_k, jgt_k, jge_k, jset_k, ret_k, off_arch, off_nr,
}

-- `seccomp_data`: the architecture, the number, and the six 64-bit arguments.
pub record Call : Type 0 where
  pub arch : ℕ
  pub nr : ℕ
  pub args : ℕ → ℕ

-- The 32-bit word at an offset.
unfoldable pub load : Call → ℕ → Option ℕ
load c k =
    if k == off_arch
    then some c.arch
    else if k == off_nr
    then some c.nr
    else if leb 16 k && ltb k 64 && (k - 16) % 8 == 0
    then some (c.args ((k - 16) / 8) % u32_mod)
    else if leb 16 k && ltb k 64 && (k - 16) % 8 == 4
    then some (c.args ((k - 16) / 8) / u32_mod % u32_mod)
    else none

-- What one instruction does: return an action, go on after a number of instructions, or panic.
pub data Outcome : Type 0 where
  returns : ℕ → Outcome
  goes : ℕ → ℕ → Outcome
  panics : Outcome

abbrev loaded : Option ℕ → Outcome
loaded none = panics
loaded (some v) = goes 0 v

abbrev branch : Bool → SockFilter → ℕ → Outcome
branch b ins acc = goes (if b then ins.jt else ins.jf) acc

unfoldable pub step : Call → SockFilter → ℕ → Outcome
unfolding load
step c ins acc =
    if ins.code == ld_w_abs
    then loaded (load c ins.k)
    else if ins.code == jeq_k
    then branch (acc == ins.k) ins acc
    else if ins.code == jgt_k
    then branch (ltb ins.k acc) ins acc
    else if ins.code == jge_k
    then branch (leb ins.k acc) ins acc
    else if ins.code == jset_k
    then branch (not (bit_and acc ins.k == 0)) ins acc
    else if ins.code == ret_k
    then returns ins.k
    else panics

-- The run from the instruction behind the skipped ones; none is a panic.
unfoldable pub run : Call → ℕ → List SockFilter → ℕ → Option ℕ
unfolding step
run c n [] acc = none
run c (suc n) (ins ∷ p) acc = run c n p acc
run c zero (ins ∷ p) acc = elim (step c ins acc) [
  | returns k ↦ some k
  | goes n acc' ↦ run c n p acc'
  | panics ↦ none
]

unfoldable pub evaluate_args : List SockFilter → Call → Option ℕ
unfolding run
evaluate_args prog c = run c 0 prog 0

-- A skip over a whole block.
pub run-skip :
    (c : Call) (block rest : List SockFilter) (n acc : ℕ)
    → run c (length block + n) (block ++ rest) acc ≡ run c n rest acc
unfolding run
run-skip c [] rest n acc = ap (λ (k : ℕ). run c k rest acc) (omega arith)
run-skip c (ins ∷ block) rest n acc =
    let e : suc (length block) + n ≡ suc (length block + n) = omega arith in
    ap (λ (k : ℕ). run c k (ins ∷ (block ++ rest)) acc) e ∙ run-skip c block rest n acc
