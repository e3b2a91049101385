-- ===== src/UnitTests/Tree.antt =====
-- The temporary directory of the tests in crates/cpu-power-hal/src: a tree with some files, in which
-- each directory that a test writes to exists, so that a write creates its file.
use k8s_power_management.Base.{
  ℕ, String, ◌<>◌, Bool, false, Option, none, List, [], ◌∷◌, Result, ok, err, str_eq,
}
use k8s_power_management.Text.{decimal}
use k8s_power_management.FilePath.{FilePath, OsString, from_root, names, child, join}
use k8s_power_management.Error.{IoError}
use k8s_power_management.Sysfs.{SysfsIo}
use k8s_power_management.Sysfs.Rooted.{HostFs, rooted_sysfs}
use k8s_power_management.Sysfs.Memory.{memory_fs, put}

abbrev pub dir : FilePath
dir = from_root ("tmp" ∷ "test" ∷ [])

-- The directories whose entries a test lists.
abbrev pub temp_fs : (FilePath → Option (List OsString)) → HostFs
temp_fs listings = record (memory_fs listings) { write = λ p v d. (ok tt, put p v d) }

abbrev pub no_listings : FilePath → Option (List OsString)
no_listings p = none

abbrev pub io : SysfsIo
io = rooted_sysfs (temp_fs no_listings) dir

abbrev pub reads : Result String IoError → String → Bool
reads (ok s) t = str_eq s t
reads (err e) t = false

-- Below the root of the tree, and as the backends name it.
abbrev pub policy_dir : ℕ → FilePath
policy_dir id =
    child (join dir (names ("sys" ∷ "devices" ∷ "system" ∷ "cpu" ∷ "cpufreq" ∷ [])))
      ("policy" <> decimal id)

abbrev pub policy_path : ℕ → FilePath
policy_path id =
    child (from_root ("sys" ∷ "devices" ∷ "system" ∷ "cpu" ∷ "cpufreq" ∷ []))
      ("policy" <> decimal id)

-- `join(" ")`
abbrev pub spaced : List String → String
spaced [] = ""
spaced (s ∷ []) = s
spaced (s ∷ t ∷ rest) = s <> (" " <> spaced (t ∷ rest))
