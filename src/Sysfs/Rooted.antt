-- ===== src/Sysfs/Rooted.antt =====
-- crates/cpu-power-hal/src/sysfs.rs: `RootedSysfs`, the implementation of `SysfsIo` over `std::fs`.
pub mod Laws
use k8s_power_management.Base.{String, Bool, none, some, List, [], ◌∷◌, Result, ok, err, sort_by}
use k8s_power_management.Text.{trim_newlines}
use k8s_power_management.FilePath.{OsString, normal, root_dir, FilePath, join, strip_root, path_le}
use k8s_power_management.Error.{IoError}
use k8s_power_management.Sysfs.{SysfsIo}

-- The calls of `std::fs`. An entry of a directory that is being read can fail by itself.
pub record HostFs : Type 1 where
  pub State : Type 0
  pub read_to_string : FilePath → State → Result String IoError
  pub write : FilePath → String → State → Result (Unit {0}) IoError × State
  pub read_dir : FilePath → State → Result (List (Result OsString IoError)) IoError
  pub exists : FilePath → State → Bool

-- `resolve`, on an instance with this root.
unfoldable pub resolve : FilePath → FilePath → FilePath
resolve root path = elim (strip_root path) [ some rel ↦ join root rel | none ↦ join root path ]

abbrev trimmed : Result String IoError → Result String IoError
trimmed (ok contents) = ok (trim_newlines contents)
trimmed (err e) = err e

-- The loop of `read_dir`: the first entry that fails ends it.
entries_of : FilePath → List (Result OsString IoError) → Result (List FilePath) IoError
entries_of path [] = ok []
entries_of path (err e ∷ rest) = err e
entries_of path (ok name ∷ rest) = elim (entries_of path rest) [
  | ok entries ↦ ok (join path (normal name ∷ []) ∷ entries)
  | err e ↦ err e
]

abbrev sorted : Result (List FilePath) IoError → Result (List FilePath) IoError
sorted (ok entries) = ok (sort_by path_le entries)
sorted (err e) = err e

abbrev listed :
    FilePath → Result (List (Result OsString IoError)) IoError → Result (List FilePath) IoError
listed path (ok names) = sorted (entries_of path names)
listed path (err e) = err e

module _ (fs : HostFs) (root : FilePath) where
  unfoldable pub read_to_string : FilePath → fs.State → Result String IoError
  read_to_string path s = trimmed (fs.read_to_string (resolve root path) s)

  unfoldable pub write : FilePath → String → fs.State → Result (Unit {0}) IoError × fs.State
  write path contents s = fs.write (resolve root path) contents s

  unfoldable pub read_dir : FilePath → fs.State → Result (List FilePath) IoError
  unfolding entries_of
  read_dir path s = listed path (fs.read_dir (resolve root path) s)

  unfoldable pub exists : FilePath → fs.State → Bool
  exists path s = fs.exists (resolve root path) s

  abbrev pub rooted_sysfs : SysfsIo
  rooted_sysfs = record {
    State = fs.State;
    read_to_string = read_to_string;
    write = write;
    read_dir = read_dir;
    exists = exists;
  }

-- `RootedSysfs::host`
abbrev pub host_sysfs : HostFs → SysfsIo
host_sysfs fs = rooted_sysfs fs (root_dir ∷ [])
