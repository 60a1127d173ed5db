-- ===== src/Kryptikd/Seccomp/Names/Separate.antt =====
-- The three lists have no name in common, and none has a name twice.
use kryptik_os.Common.{is_set, ◌≡◌, refl, true, ◌++◌, length}
use kryptik_os.Kryptikd.Seccomp.Names.{named, base_names, denied_names, addable_names}

all_distinct : is_set (denied_names ++ (base_names ++ addable_names)) ≡ true
unfolding denied_names base_names addable_names named
all_distinct = refl

count : length (denied_names ++ (base_names ++ addable_names)) ≡ 311
unfolding denied_names base_names addable_names named
count = refl
