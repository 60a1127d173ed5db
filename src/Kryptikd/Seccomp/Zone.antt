-- ===== src/Kryptikd/Seccomp/Zone.antt =====
-- The filter of a zone: `CAP_CALLS` and `confine_zone_with` of compartments/kryptikd/src/seccomp.rs,
-- but for the call that installs it.
pub mod Refusals
pub mod Built
use kryptik_os.Common.{ℕ, List, [], ◌∷◌, Result, ok, err, ◌>>=◌, Bytes, ascii, ℤ}
use kryptik_os.Kryptikd.Seccomp.{
  Libc, SocketPolicy, SockFilter, SeccompError, Stop, refused, ret_kill_process,
}
use kryptik_os.Kryptikd.Seccomp.Names.{by_name, numbers, denied_names, base_allowlist}
use kryptik_os.Kryptikd.Seccomp.Program.{build_program_full}
use kryptik_os.Kryptikd.Seccomp.Widened.{widened_for}
use kryptik_os.Kryptikd.Caps.{cap_setuid, cap_setgid, cap_sys_chroot}

-- `CAP_CALLS`
abbrev pub cap_calls : (Bytes → ℤ) → List (ℕ × List ℤ)
cap_calls number =
    (cap_setuid, number (ascii "setuid") ∷ number (ascii "capset") ∷ [])
    ∷ (cap_setgid, number (ascii "setgid") ∷ number (ascii "setgroups") ∷ [])
    ∷ (cap_sys_chroot, number (ascii "chroot") ∷ [])
    ∷ []

-- `?` on an error of `widened_for`.
abbrev pub or_stop : {A : Type 0} → Result SeccompError A → Result Stop A
or_stop (ok a) = ok a
or_stop (err e) = err (refused e)

unfoldable pub zone_filter :
    Libc → (Bytes → ℤ) → List ℤ → SocketPolicy → List ℕ → Result Stop (List SockFilter)
zone_filter libc number extra sockets kept = do
  allow ← or_stop (
      widened_for (cap_calls number) (base_allowlist number)
        (numbers number (by_name number denied_names)) extra kept)
  build_program_full libc allow ret_kill_process sockets
