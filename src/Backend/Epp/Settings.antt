-- ===== src/Backend/Epp/Settings.antt =====
-- `EppBackend` of crates/cpu-power-hal/src/backend/epp.rs seen without files: the profile that each
-- policy reports, and whether turbo is allowed.
use k8s_power_management.Base.{
  String, ◌≡◌, refl, ◌∙◌, ap, Bool, Option, none, some, List, [], ◌∷◌, map, Result, ok, err, All,
  ok_value, All-map,
}
use k8s_power_management.Error.{PowerError, IoError}
use k8s_power_management.Profile.{PowerProfile, as_kernel_str, from_str}
use k8s_power_management.Profile.Laws.{from_str-as_kernel_str}
use k8s_power_management.Topology.{CpuPolicy}
use k8s_power_management.Topology.Discovery.{HaveOwnPaths}
use k8s_power_management.Sysfs.{SysfsIo, IsLawful}
use k8s_power_management.Backend.Interface.{Host}
use k8s_power_management.Backend.Epp.{EppBackend, epp_path, apply, set_turbo}
use k8s_power_management.Backend.Epp.Laws.{apply-current, epp_path-AreTargets}
use k8s_power_management.Backend.Epp.Turbo.{turbo_allowed, set_turbo-allowed}
use k8s_power_management.Backend.Epp.Kept.{apply-keeps_turbo, set_turbo-keeps_profiles}

-- One entry for each policy; `none` where its file tells no profile, or the knob no state.
pub record Settings : Type 0 where
  pub profiles : List (Option PowerProfile)
  pub turbo : Option Bool

-- The calls that change something.
pub data Request : Type 0 where
  set_profile : PowerProfile → Request
  set_boost : Bool → Request

abbrev all_to : PowerProfile → List (Option PowerProfile) → List (Option PowerProfile)
all_to p [] = []
all_to p (x ∷ xs) = some p ∷ all_to p xs

-- What a request means: it reaches every policy, or the one knob, and nothing else.
abbrev pub obeyed : Request → Settings → Settings
obeyed (set_profile p) v = record v { profiles = all_to p v.profiles }
obeyed (set_boost enabled) v = record v { turbo = some enabled }

abbrev pub obeyed_all : List Request → Settings → Settings
obeyed_all [] v = v
obeyed_all (r ∷ rs) v = obeyed_all rs (obeyed r v)

abbrev told : Result String IoError → Option PowerProfile
told (ok text) = ok_value (from_str text)
told (err e) = none

module _ (sysfs : SysfsIo) (b : EppBackend) where
  abbrev pub told_by : sysfs.State → CpuPolicy → Option PowerProfile
  told_by s p = told (sysfs.read_to_string (epp_path p) s)

  -- The settings of a host.
  abbrev pub settings : sysfs.State → Settings
  settings s = record {
    profiles = map (told_by s) b.policies;
    turbo = turbo_allowed sysfs b.vendor s;
  }

  abbrev pub perform : Request → Host sysfs → Result (Unit {0}) PowerError × Host sysfs
  perform (set_profile p) h = apply sysfs b p h
  perform (set_boost enabled) h = set_turbo sysfs b enabled h

  -- The host after these requests, and that each of them succeeded on the way.
  abbrev pub performed : List Request → Host sysfs → Host sysfs
  performed [] h = h
  performed (r ∷ rs) h = performed rs (perform r h).1

  abbrev pub Succeed : List Request → Host sysfs → Type 0
  Succeed [] h = Unit {0}
  Succeed (r ∷ rs) h = ((perform r h).0 ≡ ok tt) × Succeed rs (perform r h).1

told_by-eq :
    (sysfs : SysfsIo) (b : EppBackend) (p : PowerProfile) (s t : sysfs.State) (qs : List CpuPolicy)
    → All (λ q. sysfs.read_to_string (epp_path q) t ≡ ok (as_kernel_str p)) qs
    → map (told_by sysfs b t) qs ≡ all_to p (map (told_by sysfs b s) qs)
told_by-eq sysfs b p s t [] h = refl
told_by-eq sysfs b p s t (q ∷ qs) (read, rest) =
    ap (λ o. o ∷ map (told_by sysfs b t) qs) (ap told read ∙ ap ok_value (from_str-as_kernel_str p))
    ∙ ap (λ os. some p ∷ os) (told_by-eq sysfs b p s t qs rest)

told_by-keeps :
    (sysfs : SysfsIo) (b : EppBackend) (s t : sysfs.State) (qs : List CpuPolicy)
    → All (λ q. sysfs.read_to_string (epp_path q) t ≡ sysfs.read_to_string (epp_path q) s) qs
    → map (told_by sysfs b t) qs ≡ map (told_by sysfs b s) qs
told_by-keeps sysfs b s t [] h = refl
told_by-keeps sysfs b s t (q ∷ qs) (read, rest) =
    ap (λ o. o ∷ map (told_by sysfs b t) qs) (ap told read)
    ∙ ap (λ os. told_by sysfs b s q ∷ os) (told_by-keeps sysfs b s t qs rest)

settings-eq : {v w : Settings} → v.profiles ≡ w.profiles → v.turbo ≡ w.turbo → v ≡ w
settings-eq e f = λ i. record { profiles = e i; turbo = f i }

module _ (sysfs : SysfsIo) (L : IsLawful sysfs) (b : EppBackend)
    (own : HaveOwnPaths b.policies) where
  settings-perform :
      (r : Request) (h : Host sysfs)
      → (perform sysfs b r h).0 ≡ ok tt
      → settings sysfs b (perform sysfs b r h).1.files ≡ obeyed r (settings sysfs b h.files)
  settings-perform (set_profile p) h good =
      settings-eq
        (told_by-eq sysfs b p h.files _ b.policies (apply-current sysfs L b own p h good).0)
        (apply-keeps_turbo sysfs L b p h own)
  settings-perform (set_boost enabled) h good =
      settings-eq
        (told_by-keeps sysfs b h.files _ b.policies (
          All-map _ _ (λ q plain. set_turbo-keeps_profiles sysfs L b enabled h q plain) b.policies
            (epp_path-AreTargets b.policies own).0))
        (set_turbo-allowed sysfs L b enabled h good)

  -- The backend implements the settings: after any sequence of requests that all succeed, the host
  -- shows the settings that the requests mean, one after the other, from those that it showed before.
  pub settings-performed :
      (rs : List Request) (h : Host sysfs)
      → Succeed sysfs b rs h
      → settings sysfs b (performed sysfs b rs h).files ≡ obeyed_all rs (settings sysfs b h.files)
  settings-performed [] h good = refl
  settings-performed (r ∷ rs) h (first, rest) =
      settings-performed rs (perform sysfs b r h).1 rest
      ∙ ap (obeyed_all rs) (settings-perform r h first)
