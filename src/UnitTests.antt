-- ===== src/UnitTests.antt =====
-- The unit tests of crates/cpu-power-hal and crates/power-agent, run on the models: each `assert` is a
-- Boolean, and each test the conjunction of its assertions.
pub mod Reconcile
pub mod Status
pub mod Tree
pub mod Hal
pub mod Sysfs
pub mod Epp
pub mod Governor
use k8s_power_management.Base.{
  String, Bool, true, false, ◌&&◌, Option, none, some, List, [], ◌∷◌, Result, ok, err, str_eq,
}
use k8s_power_management.Profile.{PowerProfile}
use k8s_power_management.Agent.Metrics.{profile_eq}

abbrev pub all_pass : List Bool → Bool
all_pass [] = true
all_pass (b ∷ bs) = b && all_pass bs

-- `assert_eq!` on the types that the tests compare.
abbrev pub text_is : Option String → Option String → Bool
text_is none none = true
text_is (some s) (some t) = str_eq s t
text_is none (some t) = false
text_is (some s) none = false

abbrev pub bool_is : Bool → Bool → Bool
bool_is true b = b
bool_is false true = false
bool_is false false = true

abbrev pub state_is : Option Bool → Option Bool → Bool
state_is none none = true
state_is (some s) (some t) = bool_is s t
state_is none (some t) = false
state_is (some s) none = false

abbrev pub states_are : List Bool → List Bool → Bool
states_are [] [] = true
states_are (b ∷ bs) (c ∷ cs) = bool_is b c && states_are bs cs
states_are [] (c ∷ cs) = false
states_are (b ∷ bs) [] = false

unfoldable pub profiles_are : List PowerProfile → List PowerProfile → Bool
unfolding profile_eq
profiles_are [] [] = true
profiles_are (p ∷ ps) (q ∷ qs) = profile_eq p q && profiles_are ps qs
profiles_are [] (q ∷ qs) = false
profiles_are (p ∷ ps) [] = false

-- `unwrap` and `is_ok`, of which the first makes the test fail.
abbrev pub is_ok {ℓ κ} : {A : Type ℓ} {E : Type κ} → Result A E → Bool
is_ok (ok a) = true
is_ok (err e) = false
