-- ===== src/Tests.antt =====
-- A host with two policies, on which the theorems are run.
pub mod Host
pub mod Hal
pub mod AgentRuns
pub mod LoopRuns
pub mod SettingRuns
pub mod ProcessRuns
pub mod SharedRuns
pub mod StartRuns
pub mod EchoRuns
use mathlib.Core.Logic.{ite, if_pos, if_neg}
use k8s_power_management.Base.{
  String, ◌≡◌, ◌≢◌, refl, sym, ◌∙◌, subst, ap, Option, none, some, List, [], ◌∷◌, ◌++◌, AllPairs,
  arith, eq_iff,
}
use k8s_power_management.FilePath.{FilePath, OsString, unicode, root_dir, normal, from_root, child}
use k8s_power_management.Sysfs.{SysfsIo, IsLawful}
use k8s_power_management.Sysfs.Rooted.{rooted_sysfs}
use k8s_power_management.Sysfs.Rooted.Laws.{rooted_sysfs-IsLawful}
use k8s_power_management.Sysfs.Memory.{
  FilePath_discrete, Disk, files_of, memory_fs, memory_fs-BehavesWell,
}
use k8s_power_management.Topology.{cpufreq_root, CpuPolicy}

-- One directory has entries.
abbrev listings_of : FilePath → List OsString → FilePath → Option (List OsString)
listings_of dir names p = ite (FilePath_discrete dir p) (some names) none

listings_of-distinct :
    (dir : FilePath) (names : List OsString)
    → AllPairs ◌≢◌ names
    → (p : FilePath) (ns : List OsString) → listings_of dir names p ≡ some ns
    → AllPairs ◌≢◌ ns
listings_of-distinct dir names apart p ns e = elim (FilePath_discrete dir p) [
  | yes same ↦
      subst (AllPairs ◌≢◌)
        (some_inj (sym (if_pos (FilePath_discrete dir p) same (some names) none) ∙ e)) apart
  | no differ ↦
      absurd (none_not_some (sym (if_neg (FilePath_discrete dir p) differ (some names) none) ∙ e))
]
  where
    some_inj : {a b : List OsString} → ◌≡◌ {A = Option (List OsString)} (some a) (some b) → a ≡ b
    some_inj e = cc

    none_not_some : {a : List OsString} → ◌≡◌ {A = Option (List OsString)} none (some a) → ⊥
    none_not_some e = cc

abbrev pub entry_names : List OsString
entry_names = unicode "policy1" ∷ unicode "policy0" ∷ unicode "boost" ∷ []

abbrev pub policy0 : FilePath
policy0 = child cpufreq_root "policy0"

abbrev pub policy1 : FilePath
policy1 = child cpufreq_root "policy1"

abbrev policy_files : FilePath → String → List (FilePath × String)
policy_files dir cpus =
    (child dir "energy_performance_preference", "performance\n")
    ∷ (child dir "energy_performance_available_preferences", "default performance power\n")
    ∷ (child dir "scaling_available_governors", "performance powersave\n")
    ∷ (child dir "scaling_governor", "performance\n")
    ∷ (child dir "scaling_driver", "intel_pstate\n")
    ∷ (child dir "related_cpus", cpus)
    ∷ []

abbrev pub disk : Disk
disk = files_of (
    policy_files policy0 "0 1\n"
    ++ (policy_files policy1 "2 3\n"
        ++ ((
          from_root ("sys" ∷ "devices" ∷ "system" ∷ "cpu" ∷ "intel_pstate" ∷ "no_turbo" ∷ []),
          "0\n",
        )
            ∷ [])))

abbrev pub listings : FilePath → Option (List OsString)
listings = listings_of cpufreq_root entry_names

pub listings-distinct : (p : FilePath) (ns : List OsString) → listings p ≡ some ns → AllPairs ◌≢◌ ns
listings-distinct = listings_of-distinct cpufreq_root entry_names (
  (
    differ (ground (arith, eq_iff "policy1" "policy0")),
    (differ (ground (arith, eq_iff "policy1" "boost")), tt),
  ),
  ((differ (ground (arith, eq_iff "policy0" "boost")), tt), (tt, tt)),
)
  where
    differ : {s t : String} → s ≢ t → unicode s ≢ unicode t
    differ h e = h (cc)

abbrev pub machine : SysfsIo
machine = rooted_sysfs (memory_fs listings) (root_dir ∷ [])
