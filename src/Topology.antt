-- ===== src/Topology.antt =====
-- crates/cpu-power-hal/src/topology.rs: the cpufreq policies of the host.
pub mod Laws
pub mod Discovery
use k8s_power_management.Base.{
  ℕ, String, Bool, Option, none, some, List, [], ◌∷◌, Result, ok, err, ok_value, if◌then◌else◌,
  sort_by, key_le,
}
use k8s_power_management.Text.{split_whitespace, strip_prefix, parse_uint, u32_limit}
use k8s_power_management.FilePath.{FilePath, from_root, child, file_name, OsString, to_str}
use k8s_power_management.Error.{IoError, PowerError, io}
use k8s_power_management.Sysfs.{SysfsIo}

abbrev pub cpufreq_root : FilePath
cpufreq_root = from_root ("sys" ∷ "devices" ∷ "system" ∷ "cpu" ∷ "cpufreq" ∷ [])

pub record CpuPolicy : Type 0 where
  pub id : ℕ
  pub path : FilePath
  pub related_cpus : List ℕ
  pub scaling_driver : String
  pub has_epp : Bool
  pub available_epp : List String
  pub available_governors : List String

-- The `filter_map` of `parse_cpu_list`: what is no `u32` is left out.
parse_cpus : List String → List ℕ
parse_cpus [] = []
parse_cpus (tok ∷ toks) =
    let rest = parse_cpus toks in elim (parse_uint u32_limit tok) [ ok n ↦ n ∷ rest | err e ↦ rest ]

unfoldable pub parse_cpu_list : String → List ℕ
unfolding parse_cpus
parse_cpu_list s = parse_cpus (split_whitespace s)

-- The number behind `policy`, if the name has that form.
abbrev policy_number : Option String → Option ℕ
policy_number none = none
policy_number (some id_str) = ok_value (parse_uint u32_limit id_str)

abbrev name_id : Option String → Option ℕ
name_id none = none
name_id (some name) = policy_number (strip_prefix name "policy")

abbrev name_text : Option OsString → Option String
name_text none = none
name_text (some n) = to_str n

-- The three guards at the head of the loop of `discover_policies`; `none` is `continue`.
unfoldable pub policy_id : FilePath → Option ℕ
policy_id entry = name_id (name_text (file_name entry))

abbrev words_or_empty : Option String → List String
words_or_empty none = []
words_or_empty (some s) = split_whitespace s

abbrev cpus_or_empty : Option String → List ℕ
cpus_or_empty none = []
cpus_or_empty (some s) = parse_cpu_list s

abbrev text_or_empty : Option String → String
text_or_empty none = ""
text_or_empty (some s) = s

module _ (sysfs : SysfsIo) where
  unfoldable pub read_trimmed : FilePath → sysfs.State → Option String
  read_trimmed path s = ok_value (sysfs.read_to_string path s)

  -- The policy that a directory entry of the given number describes.
  unfoldable pub read_policy : FilePath → ℕ → sysfs.State → CpuPolicy
  unfolding read_trimmed
  read_policy entry id s =
      let epp = sysfs.exists (child entry "energy_performance_preference") s in
      record {
        id = id;
        path = entry;
        related_cpus = cpus_or_empty (read_trimmed (child entry "related_cpus") s);
        scaling_driver = text_or_empty (read_trimmed (child entry "scaling_driver") s);
        has_epp = epp;
        available_epp =
            if epp
            then words_or_empty
                (read_trimmed (child entry "energy_performance_available_preferences") s)
            else [];
        available_governors =
            words_or_empty (read_trimmed (child entry "scaling_available_governors") s);
      }

  -- The loop of `discover_policies`.
  unfoldable pub read_policies : List FilePath → sysfs.State → List CpuPolicy
  read_policies [] s = []
  read_policies (entry ∷ entries) s =
      let rest = read_policies entries s in
      elim (policy_id entry) [ none ↦ rest | some id ↦ read_policy entry id s ∷ rest ]

  abbrev from_entries :
      Result (List FilePath) IoError → sysfs.State → Result (List CpuPolicy) PowerError
  from_entries (ok entries) s = ok (sort_by (key_le (λ p. p.id)) (read_policies entries s))
  from_entries (err e) s = err (io cpufreq_root e)

  unfoldable pub discover_policies : sysfs.State → Result (List CpuPolicy) PowerError
  discover_policies s =
      let found = from_entries (sysfs.read_dir cpufreq_root s) s in
      if sysfs.exists cpufreq_root s then found else ok []
