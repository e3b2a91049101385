-- ===== src/Sysfs.antt =====
-- crates/cpu-power-hal/src/sysfs.rs: the trait `SysfsIo` over an unknown state of the file system.
pub mod Rooted
pub mod Memory
use k8s_power_management.Base.{String, ◌≡◌, ◌≢◌, Bool, true, List, Result, ok, All, AllPairs}
use k8s_power_management.Text.{trim_newlines}
use k8s_power_management.FilePath.{FilePath}
use k8s_power_management.FilePath.Laws.{IsPlain}
use k8s_power_management.Error.{IoError}

pub record SysfsIo : Type 1 where
  pub State : Type 0
  pub read_to_string : FilePath → State → Result String IoError
  pub write : FilePath → String → State → Result (Unit {0}) IoError × State
  pub read_dir : FilePath → State → Result (List FilePath) IoError
  pub exists : FilePath → State → Bool

-- What the backends rely on: an accepted text is read back without its final newlines, its file exists, and a write,
-- accepted or not, concerns the written file alone.
pub record IsLawful (io : SysfsIo) : Type 0 where
  pub read-write :
      (p : FilePath) (v : String) (s : io.State)
      → IsPlain p
      → (io.write p v s).0 ≡ ok tt
      → io.read_to_string p (io.write p v s).1 ≡ ok (trim_newlines v)
  pub read-write_ne :
      (p q : FilePath) (v : String) (s : io.State)
      → IsPlain p
      → IsPlain q
      → p ≢ q
      → io.read_to_string q (io.write p v s).1 ≡ io.read_to_string q s
  pub exists-write :
      (p : FilePath) (v : String) (s : io.State)
      → IsPlain p
      → (io.write p v s).0 ≡ ok tt
      → io.exists p (io.write p v s).1 ≡ true
  pub exists-write_ne :
      (p q : FilePath) (v : String) (s : io.State)
      → IsPlain p
      → IsPlain q
      → p ≢ q
      → io.exists q (io.write p v s).1 ≡ io.exists q s
  -- The entries of a directory are files below it, each listed once.
  pub read_dir-entries :
      (p : FilePath) (s : io.State) (entries : List FilePath)
      → IsPlain p
      → io.read_dir p s ≡ ok entries
      → All IsPlain entries × AllPairs ◌≢◌ entries
