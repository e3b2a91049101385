-- ===== src/Profile/Laws.antt =====
-- Lemmas on the conversions of crates/cpu-power-hal/src/profile.rs.
use k8s_power_management.Base.{String, ◌≡◌, ◌≢◌, ◌↔◌, refl, ap, ◌∙◌, ok, err, arith, eq_iff}
use k8s_power_management.Error.{invalid_profile}
use k8s_power_management.Profile.{
  PowerProfile, default, performance, balance_performance, balance_power, power, as_kernel_str,
  from_str,
}

-- Every profile is read back from the text that the kernel is given for it.
pub from_str-as_kernel_str : (p : PowerProfile) → from_str (as_kernel_str p) ≡ ok p
unfolding from_str as_kernel_str
from_str-as_kernel_str default = refl
from_str-as_kernel_str performance = refl
from_str-as_kernel_str balance_performance = refl
from_str-as_kernel_str balance_power = refl
from_str-as_kernel_str power = refl

pub as_kernel_str-injective : (p q : PowerProfile) → as_kernel_str p ≡ as_kernel_str q → p ≡ q
as_kernel_str-injective p q e =
    cc (from_str-as_kernel_str p, from_str-as_kernel_str q, ap from_str e)

pub from_str-eq-ok : (s : String) (p : PowerProfile) → from_str s ≡ ok p → s ≡ as_kernel_str p
unfolding from_str as_kernel_str
from_str-eq-ok s p e = ground (
  arith,
  eq_iff s "default",
  eq_iff s "performance",
  eq_iff s "balance_performance",
  eq_iff s "balance_power",
  eq_iff s "power",
)

-- A text is accepted as a profile exactly when it is that profile's kernel string, and any other
-- text is refused with an error that carries it.
pub from_str_iff :
    (s : String)
    → ((p : PowerProfile) → (from_str s ≡ ok p) ↔ (s ≡ as_kernel_str p))
      × (((p : PowerProfile) → s ≢ as_kernel_str p) → from_str s ≡ err (invalid_profile s))
unfolding from_str as_kernel_str
from_str_iff s = (
  λ p. (from_str-eq-ok s p, λ e. ap from_str e ∙ from_str-as_kernel_str p),
  λ h. ground (
    arith,
    eq_iff s "default",
    eq_iff s "performance",
    eq_iff s "balance_performance",
    eq_iff s "balance_power",
    eq_iff s "power",
    h default,
    h performance,
    h balance_performance,
    h balance_power,
    h power,
  ),
)
