-- ===== src/Wlproxy/Policy/Tests.antt =====
-- The names of a zone called work, and what its clients may bind.
use kryptik_os.Common.{
  ◌≤◌, ◌≡◌, refl, arith, true, false, ◌∷◌, some, none, length, take, Bytes, ascii,
}
use kryptik_os.Wlproxy.Protocol.{Interface}
use kryptik_os.Wlproxy.Tables.{find}
use kryptik_os.Wlproxy.Policy.{
  allowed_version, served, max_title_bytes, title_prefix, title_for, bound_utf8, cut_back,
  app_id_for,
}
use kryptik_os.Wlproxy.Policy.Binds.{allowed_version-find}
use kryptik_os.Wlproxy.Policy.Names.{NoDot, title_for-take, app_id_for-zone}

abbrev work : Bytes
work = ascii "work"

-- A claimed zone follows the real one, and a mark of direction is a space.
title_of_work : title_for work (0x202e ∷ ascii "[vault] mail") ≡ ascii "[work]  [vault] mail"
unfolding title_for bound_utf8 cut_back
title_of_work = refl

app_id_of_work : app_id_for work (ascii "a.b") ≡ ascii "kryptik.work.a_b"
unfolding app_id_for
app_id_of_work = refl

shm_allowed : allowed_version (ascii "wl_shm") false ≡ some 2
unfolding allowed_version
shm_allowed = refl

data_refused : allowed_version (ascii "wl_data_device_manager") true ≡ none
unfolding allowed_version
data_refused = refl

allowed_version-find_example :
    ((i : Interface) × (find (ascii "wl_shm") ≡ some i) × (2 ≤ i.version))
    × (served (ascii "wl_shm") ≡ false)
allowed_version-find_example = allowed_version-find (ascii "wl_shm") false 2 shm_allowed

title_for-take_example :
    (take (length (title_prefix work)) (title_for work (ascii "mail")) ≡ title_prefix work)
    × (length (title_for work (ascii "mail")) ≤ max_title_bytes)
title_for-take_example = title_for-take work (ascii "mail") (omega arith)

work-NoDot : NoDot work
work-NoDot = ground arith

one_id : app_id_for work (ascii "a.b") ≡ app_id_for work (ascii "a_b")
unfolding app_id_for
one_id = refl

app_id_for-zone_example : work ≡ work
app_id_for-zone_example =
    app_id_for-zone work work (ascii "a.b") (ascii "a_b") work-NoDot work-NoDot one_id
