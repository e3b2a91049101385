-- ===== src/Error.antt =====
-- crates/cpu-power-hal/src/error.rs: `PowerError` and its `Display`.
use k8s_power_management.Base.{ℕ, String, ◌<>◌, List}
use k8s_power_management.Text.{decimal}
use k8s_power_management.FilePath.{FilePath}

-- `std::io::Error`, of which the crates use only the text that it displays.
pub record IoError : Type 0 where
  pub message : String

pub data PowerError : Type 0 where
  io : FilePath → IoError → PowerError
  invalid_profile : String → PowerError
  unsupported_profile : ℕ → String → List String → PowerError
  turbo_unsupported : PowerError

-- What the standard library prints of a path (`Path::display`) and of a vector of texts (`{:?}`).
pub record Format : Type 0 where
  pub display_path : FilePath → String
  pub debug_texts : List String → String

-- `to_string`
unfoldable pub error_text : Format → PowerError → String
error_text f (io path source) = "io error at " <> (f.display_path path <> (": " <> source.message))
error_text f (invalid_profile s) = "'" <> (s <> "' is not a recognized power profile")
error_text f (unsupported_profile policy profile available) =
    "profile '"
    <> (profile
        <> ("' is not among the values advertised by cpufreq policy"
            <> (decimal policy <> (": " <> f.debug_texts available))))
error_text f turbo_unsupported = "turbo boost control is not supported by this backend"
