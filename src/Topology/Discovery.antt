-- ===== src/Topology/Discovery.antt =====
-- Lemmas on the result of `discover_policies` in crates/cpu-power-hal/src/topology.rs.
use k8s_power_management.Base.{
  ℕ, ◌<◌, String, ◌≡◌, ◌≢◌, ◌↔◌, ◌⊎◌, inl, inr, refl, sym, ◌∙◌, subst, Bool, true, false, List, [],
  ◌∷◌, Result, ok, All, AllPairs, In, arith, Bool-cases, Result-cases, sort_by, key_le, IsAscending,
  sort_by-IsAscending, sort_by-All, sort_by-AllPairs, sort_by-In, All-In, All-map, Option-cases,
}
use k8s_power_management.Text.{u32_limit}
use k8s_power_management.FilePath.{FilePath, child}
use k8s_power_management.FilePath.Laws.{IsPlain, from_root-IsPlain, child-IsPlain, child-injective}
use k8s_power_management.Error.{IoError}
use k8s_power_management.Sysfs.{SysfsIo, IsLawful}
use k8s_power_management.Topology.{
  CpuPolicy, cpufreq_root, policy_id, read_policy, read_policies, discover_policies,
}
use k8s_power_management.Topology.Laws.{
  NamesPolicy, policy_id-NamesPolicy_iff, ReadFrom, In-read_policies, policy_id-lt-limit,
}

-- Each policy at a plain path of its own.
abbrev pub HaveOwnPaths : List CpuPolicy → Type 0
HaveOwnPaths ps = All (λ p. IsPlain p.path) ps × AllPairs (λ p q. p.path ≢ q.path) ps

module _ (sysfs : SysfsIo) where
  abbrev pub by_id : List CpuPolicy → List CpuPolicy
  by_id = sort_by (key_le (λ p. p.id))

  -- How a discovery that ends well came about.
  pub discover_policies-cases :
      (s : sysfs.State) (ps : List CpuPolicy)
      → discover_policies sysfs s ≡ ok ps
      → ((sysfs.exists cpufreq_root s ≡ false) × (ps ≡ []))
        ⊎ ((entries : List FilePath) × (sysfs.exists cpufreq_root s ≡ true)
            × (sysfs.read_dir cpufreq_root s ≡ ok entries)
            × (ps ≡ by_id (read_policies sysfs entries s)))
  unfolding discover_policies
  discover_policies-cases s ps h = elim (Bool-cases (sysfs.exists cpufreq_root s)) [
    | inr absent ↦ inl (absent, ground arith)
    | inl present ↦ elim (Result-cases (sysfs.read_dir cpufreq_root s)) [
      | inl (entries, e) ↦ inr (entries, present, e, ground arith)
      | inr (e, failed) ↦ absurd (ground arith)
    ]
  ]

  -- A policy that was read from some entry of the cpufreq directory.
  abbrev pub IsListed : sysfs.State → CpuPolicy → Type 0
  IsListed s p =
      (entries : List FilePath) × (entry : FilePath) × (sysfs.exists cpufreq_root s ≡ true)
      × (sysfs.read_dir cpufreq_root s ≡ ok entries)
      × In entry entries
      × NamesPolicy entry p.id
      × (p ≡ read_policy sysfs entry p.id s)

  -- Ascending numbers that fit their type, and the policies of the directory, all of them.
  abbrev pub Found : sysfs.State → List CpuPolicy → Type 0
  Found s ps =
      IsAscending (λ p. p.id) ps
      × All (λ p. p.id < u32_limit) ps
      × ((p : CpuPolicy) → In p ps ↔ IsListed s p)

  -- A discovery that ends well finds exactly the policies of the entries of the cpufreq directory
  -- whose names are `policy` and a text that `u32::from_str` accepts, each with that number, in ascending
  -- order of it, and each as its files are read. It finds none where that directory does not exist.
  pub discover_policies_lem :
      (s : sysfs.State) (ps : List CpuPolicy) → discover_policies sysfs s ≡ ok ps → Found s ps
  discover_policies_lem s ps h = elim (discover_policies-cases s ps h) [
    | inl (absent, e) ↦
        subst (Found s) (sym e) (tt, tt, λ p. (λ m. absurd m, λ m. not_there absent m.2))
    | inr (entries, present, e, same) ↦ subst (Found s) (sym same) (
      sort_by-IsAscending (λ p. p.id) (read_policies sysfs entries s),
      All-In _ _
          (λ p m. let (entry, _, r) = listed entries p m in policy_id-lt-limit entry p.id r.0),
      λ p. (
        λ m.
            let (entry, n, (number, r)) = listed entries p m in
            (entries, entry, present, e, n, (policy_id-NamesPolicy_iff entry p.id).0 number, r),
        λ (entries', entry, _, e', n, number, r). (sort_by-In _ p _).1 (
            (In-read_policies sysfs entries s p).1 (
              entry,
              subst (In entry) (same_list (sym e' ∙ e)) n,
              ((policy_id-NamesPolicy_iff entry p.id).1 number, r),
            )),
      ),
    )
  ]
    where
      not_there : {b : Bool} → b ≡ false → b ≡ true → ⊥
      not_there f t = cc

      same_list :
          {a b : List FilePath} → ◌≡◌ {A = Result (List FilePath) IoError} (ok a) (ok b) → a ≡ b
      same_list e = cc

      listed :
          (entries : List FilePath) (p : CpuPolicy)
          → In p (by_id (read_policies sysfs entries s))
          → (entry : FilePath) × In entry entries × ReadFrom sysfs s entry p
      listed entries p m = (In-read_policies sysfs entries s p).0 ((sort_by-In _ p _).0 m)

cpufreq_root-IsPlain : IsPlain cpufreq_root
cpufreq_root-IsPlain = from_root-IsPlain ("sys" ∷ "devices" ∷ "system" ∷ "cpu" ∷ "cpufreq" ∷ [])

module _ (sysfs : SysfsIo) (L : IsLawful sysfs) where
  path-read_policy :
      (entry : FilePath) (id : ℕ) (s : sysfs.State) → (read_policy sysfs entry id s).path ≡ entry
  unfolding read_policy
  path-read_policy entry id s = refl

  read_policies-All :
      (P : FilePath → Type 0) (entries : List FilePath) (s : sysfs.State)
      → All P entries
      → All (λ p. P p.path) (read_policies sysfs entries s)
  unfolding read_policies read_policy
  read_policies-All P [] s h = tt
  read_policies-All P (entry ∷ entries) s h = elim (Option-cases (policy_id entry)) [
    | inl skipped ↦ rw (skipped, read_policies) (read_policies-All P entries s h.1)
    | inr (id, found) ↦ rw (found, read_policies) (h.0, read_policies-All P entries s h.1)
  ]

  read_policies-AllPairs :
      (entries : List FilePath) (s : sysfs.State)
      → AllPairs ◌≢◌ entries
      → AllPairs (λ p q. p.path ≢ q.path) (read_policies sysfs entries s)
  unfolding read_policies read_policy
  read_policies-AllPairs [] s h = tt
  read_policies-AllPairs (entry ∷ entries) s h = elim (Option-cases (policy_id entry)) [
    | inl skipped ↦ rw (skipped, read_policies) (read_policies-AllPairs entries s h.1)
    | inr (id, found) ↦
        rw (found, read_policies)
          (read_policies-All (λ q. entry ≢ q) entries s h.0, read_policies-AllPairs entries s h.1)
  ]

  -- No two discovered policies share a directory.
  pub discover_policies-HaveOwnPaths :
      (s : sysfs.State) (ps : List CpuPolicy) → discover_policies sysfs s ≡ ok ps → HaveOwnPaths ps
  discover_policies-HaveOwnPaths s ps h = elim (discover_policies-cases sysfs s ps h) [
    | inl (absent, e) ↦ subst HaveOwnPaths (sym e) (tt, tt)
    | inr (entries, present, e, same) ↦
        let (plain, apart) = L.read_dir-entries cpufreq_root s entries cpufreq_root-IsPlain e in
        subst HaveOwnPaths (sym same) (
          sort_by-All _ _ _ (read_policies-All IsPlain entries s plain),
          sort_by-AllPairs _ _ (λ a b differ same_path. differ (sym same_path)) _
              (read_policies-AllPairs entries s apart),
        )
  ]

-- The files of one name below the policies are plain paths, all different.
pub child-own_paths :
    (name : String) (ps : List CpuPolicy)
    → HaveOwnPaths ps
    → All (λ p. IsPlain (child p.path name)) ps
      × AllPairs (λ p q. child p.path name ≢ child q.path name) ps
child-own_paths name [] h = (tt, tt)
child-own_paths name (p ∷ ps) ((plain, plains), (apart, aparts)) =
    let (rest_plain, rest_apart) = child-own_paths name ps (plains, aparts) in
    (
      (child-IsPlain p.path name plain, rest_plain),
      (
        All-map _ _ (λ q differ e. differ (child-injective p.path q.path name name e).0) ps apart,
        rest_apart,
      ),
    )
