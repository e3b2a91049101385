-- ===== src/Profile.antt =====
-- crates/cpu-power-hal/src/profile.rs: the five profiles and their kernel strings.
pub mod Laws
use k8s_power_management.Base.{String, List, [], ◌∷◌, Bool, Result, ok, err, str_eq, if◌then◌else◌}
use k8s_power_management.Error.{PowerError, invalid_profile}

pub data PowerProfile : Type 0 where
  default performance balance_performance balance_power power : PowerProfile

-- `PowerProfile::ALL`
abbrev pub all_profiles : List PowerProfile
all_profiles = default ∷ performance ∷ balance_performance ∷ balance_power ∷ power ∷ []

unfoldable pub as_kernel_str : PowerProfile → String
as_kernel_str default = "default"
as_kernel_str performance = "performance"
as_kernel_str balance_performance = "balance_performance"
as_kernel_str balance_power = "balance_power"
as_kernel_str power = "power"

unfoldable pub from_str : String → Result PowerProfile PowerError
from_str s =
    if str_eq s "default"
    then ok default
    else if str_eq s "performance"
    then ok performance
    else if str_eq s "balance_performance"
    then ok balance_performance
    else if str_eq s "balance_power"
    then ok balance_power
    else if str_eq s "power"
    then ok power
    else err (invalid_profile s)
