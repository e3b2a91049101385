-- ===== src/Tests/Host.antt =====
-- What the HAL discovers on that host, and the laws of its file system.
use k8s_power_management.Base.{◌≡◌, refl, List, [], ◌∷◌, ok, true}
use k8s_power_management.FilePath.{root_dir, join, file_name, path_le}
use k8s_power_management.FilePath.Laws.{IsPlain, from_root-IsPlain}
use k8s_power_management.Sysfs.{IsLawful}
use k8s_power_management.Sysfs.Rooted.{exists, resolve, read_dir, read_to_string}
use k8s_power_management.Sysfs.Rooted.Laws.{rooted_sysfs-IsLawful}
use k8s_power_management.Sysfs.Memory.{FilePath_discrete, memory_fs, memory_fs-BehavesWell}
use k8s_power_management.Topology.{
  CpuPolicy, discover_policies, read_policies, policy_id, read_policy, parse_cpu_list,
}
use k8s_power_management.Topology.Discovery.{HaveOwnPaths, discover_policies-HaveOwnPaths}
use k8s_power_management.Base.{sort_by}
use k8s_power_management.Text.{strip_prefix, parse_uint, trim_newlines, split_whitespace}
use k8s_power_management.Tests.{machine, disk, policy0, policy1, listings, listings-distinct}

abbrev pub first_policy : CpuPolicy
first_policy = record {
  id = 0;
  path = policy0;
  related_cpus = 0 ∷ 1 ∷ [];
  scaling_driver = "intel_pstate";
  has_epp = true;
  available_epp = "default" ∷ "performance" ∷ "power" ∷ [];
  available_governors = "performance" ∷ "powersave" ∷ [];
}

abbrev pub second_policy : CpuPolicy
second_policy = record first_policy { id = 1; path = policy1; related_cpus = 2 ∷ 3 ∷ [] }

abbrev pub both : List CpuPolicy
both = first_policy ∷ second_policy ∷ []

pub found : discover_policies machine disk ≡ ok both
unfolding discover_policies exists FilePath_discrete join resolve read_dir sort_by read_policies
    path_le policy_id file_name strip_prefix parse_uint read_policy read_to_string parse_cpu_list
    trim_newlines split_whitespace
found = refl

pub root-IsPlain : IsPlain (root_dir ∷ [])
root-IsPlain = from_root-IsPlain []

pub lawful : IsLawful machine
lawful =
    rooted_sysfs-IsLawful (memory_fs listings) (memory_fs-BehavesWell listings listings-distinct)
      (root_dir ∷ []) root-IsPlain

pub own : HaveOwnPaths both
own = discover_policies-HaveOwnPaths machine lawful disk both found
