-- ===== src/UnitTests/Sysfs.antt =====
-- The tests of crates/cpu-power-hal/src/sysfs.rs.
use mathlib.Core.Logic.{ite}
use k8s_power_management.Base.{
  String, ◌≡◌, refl, Bool, true, false, not, ◌&&◌, Option, none, some, List, [], ◌∷◌, Result, ok,
  err, sort_by,
}
use k8s_power_management.Text.{decimal, trim_newlines}
use k8s_power_management.FilePath.{
  FilePath, OsString, unicode, from_root, names, child, join, path_le,
}
use k8s_power_management.Error.{IoError}
use k8s_power_management.Sysfs.Rooted.{resolve, read_to_string, write, read_dir, exists}
use k8s_power_management.Sysfs.Memory.{FilePath_discrete, files_of}
use k8s_power_management.UnitTests.{all_pass, is_ok}
use k8s_power_management.UnitTests.Tree.{dir, temp_fs, io, reads, policy_path}

abbrev round_trips_write_and_read : Bool
round_trips_write_and_read =
    let path = child (policy_path 0) "energy_performance_preference" in
    let (written, d) = io.write path "performance" (files_of []) in
    is_ok written && reads (io.read_to_string path d) "performance" && io.exists path d

abbrev cpufreq : List String
cpufreq = "sys" ∷ "devices" ∷ "system" ∷ "cpu" ∷ "cpufreq" ∷ []

abbrev missing_path_is_not_exists_not_panic : Bool
missing_path_is_not_exists_not_panic = not (io.exists (from_root cpufreq) (files_of []))

-- The two directories of policies; the file system may list them in any order.
abbrev two_policies : FilePath → Option (List OsString)
two_policies p =
    ite (FilePath_discrete p (join dir (names cpufreq)))
      (some (unicode "policy1" ∷ unicode "policy0" ∷ [])) none

abbrev paths_are : Result (List FilePath) IoError → List FilePath → Bool
paths_are (ok []) [] = true
paths_are (ok (p ∷ ps)) (q ∷ qs) = ite (FilePath_discrete p q) (paths_are (ok ps) qs) false
paths_are (ok []) (q ∷ qs) = false
paths_are (ok (p ∷ ps)) [] = false
paths_are (err e) qs = false

abbrev read_dir_returns_sysfs_relative_paths : Bool
read_dir_returns_sysfs_relative_paths =
    paths_are (read_dir (temp_fs two_policies) dir (from_root cpufreq) (files_of []))
      (policy_path 0 ∷ policy_path 1 ∷ [])

-- All tests pass.
sysfs_tests_pass :
    all_pass (
      round_trips_write_and_read ∷ missing_path_is_not_exists_not_panic
      ∷ read_dir_returns_sysfs_relative_paths ∷ [])
    ≡ true
unfolding read_to_string write read_dir exists resolve join FilePath_discrete sort_by path_le
    decimal trim_newlines
sysfs_tests_pass = refl
