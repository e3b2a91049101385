-- ===== src/Topology/Laws.antt =====
-- Lemmas on the names of directory entries and the loop of `discover_policies` in
-- crates/cpu-power-hal/src/topology.rs.
use k8s_power_management.Base.{
  ℕ, ◌<◌, String, ◌<>◌, ◌≡◌, ◌↔◌, inl, inr, refl, sym, ◌∙◌, ap, subst, Option, none, some, List, [],
  ◌∷◌, ◌++◌, In, arith, Option-cases, Result-cases, ok,
}
use k8s_power_management.Text.{strip_prefix, decimal, u32_limit, parse_uint}
use k8s_power_management.Text.Numbers.{parse_uint-decimal, parse_uint-lt-limit}
use k8s_power_management.Text.Words.{strip_prefix-append, strip_prefix_sound}
use k8s_power_management.FilePath.{FilePath, normal, OsString, unicode, raw, child, file_name}
use k8s_power_management.FilePath.Laws.{join-normal}
use k8s_power_management.Sysfs.{SysfsIo}
use k8s_power_management.Topology.{
  CpuPolicy, policy_number, name_id, name_text, policy_id, read_policy, read_policies,
}

pub file_name-append : (p : FilePath) (n : OsString) → file_name (p ++ (normal n ∷ [])) ≡ some n
unfolding file_name
file_name-append [] n = refl
file_name-append (c ∷ []) n = refl
file_name-append (c ∷ d ∷ p) n = file_name-append (d ∷ p) n

-- A directory named `policy` and a `u32` in decimal is the policy of that number.
pub policy_id-decimal :
    (dir : FilePath) (n : ℕ)
    → n < u32_limit
    → policy_id (child dir ("policy" <> decimal n)) ≡ some n
unfolding policy_id
policy_id-decimal dir n h =
    rw (join-normal, file_name-append, strip_prefix-append, parse_uint-decimal u32_limit n h)

policy_number-lt-limit : (o : Option String) (n : ℕ) → policy_number o ≡ some n → n < u32_limit
policy_number-lt-limit none n h = cc
policy_number-lt-limit (some id_str) n h = elim (Result-cases (parse_uint u32_limit id_str)) [
  | inl (m, e) ↦ parse_uint-lt-limit u32_limit id_str n (omega arith) (ground arith)
  | inr (m, e) ↦ absurd (ground arith)
]

name_id-lt-limit : (o : Option String) (n : ℕ) → name_id o ≡ some n → n < u32_limit
name_id-lt-limit none n h = cc
name_id-lt-limit (some name) n h = policy_number-lt-limit _ n h

pub policy_id-lt-limit : (entry : FilePath) (n : ℕ) → policy_id entry ≡ some n → n < u32_limit
unfolding policy_id
policy_id-lt-limit entry n h = name_id-lt-limit _ n h

-- A name that is `policy` and a text which `u32::from_str` reads as this number.
abbrev pub NamesPolicy : FilePath → ℕ → Type 0
NamesPolicy entry n =
    (id_str : String) × (file_name entry ≡ some (unicode ("policy" <> id_str)))
    × (parse_uint u32_limit id_str ≡ ok n)

some_not_none : {A : Type 0} {a : A} → ◌≡◌ {A = Option A} none (some a) → ⊥
some_not_none e = cc

number-parsed :
    (o : Option String) (n : ℕ)
    → policy_number o ≡ some n
    → (id_str : String) × (o ≡ some id_str) × (parse_uint u32_limit id_str ≡ ok n)
number-parsed none n e = absurd (some_not_none e)
number-parsed (some id_str) n e = elim (Result-cases (parse_uint u32_limit id_str)) [
  | inl (m, parsed) ↦ (id_str, refl, parsed ∙ ap ok (some_inj (rw (parsed) at e)))
  | inr (x, bad) ↦ absurd (some_not_none (rw (bad) at e))
]
  where
    some_inj : {a b : ℕ} → ◌≡◌ {A = Option ℕ} (some a) (some b) → a ≡ b
    some_inj f = cc

named-number :
    (o : Option OsString) (n : ℕ)
    → name_id (name_text o) ≡ some n
    → (id_str : String) × (o ≡ some (unicode ("policy" <> id_str)))
      × (parse_uint u32_limit id_str ≡ ok n)
named-number none n e = absurd (some_not_none e)
named-number (some (raw b)) n e = absurd (some_not_none e)
named-number (some (unicode name)) n e =
    let (id_str, stripped, parsed) = number-parsed (strip_prefix name "policy") n e in
    (id_str, ap (λ s. some (unicode s)) (strip_prefix_sound name "policy" id_str stripped), parsed)

-- An entry is taken for a policy exactly by such a name.
pub policy_id-NamesPolicy_iff :
    (entry : FilePath) (n : ℕ) → (policy_id entry ≡ some n) ↔ NamesPolicy entry n
unfolding policy_id
policy_id-NamesPolicy_iff entry n = (
  λ e. named-number (file_name entry) n e,
  λ (id_str, named, parsed). rw (named) (rw (strip_prefix-append "policy" id_str, parsed) refl),
)

none_not_some : {n : ℕ} → ◌≡◌ {A = Option ℕ} none (some n) → ⊥
none_not_some e = cc

module _ (sysfs : SysfsIo) where
  -- A policy that was read from this entry.
  abbrev pub ReadFrom : sysfs.State → FilePath → CpuPolicy → Type 0
  ReadFrom s entry p = (policy_id entry ≡ some p.id) × (p ≡ read_policy sysfs entry p.id s)

  read_back :
      (entry : FilePath) (id : ℕ) (s : sysfs.State) (p : CpuPolicy)
      → policy_id entry ≡ some id
      → p ≡ read_policy sysfs entry id s
      → ReadFrom s entry p
  unfolding read_policy
  read_back entry id s p found e =
      let number : p.id ≡ id = ap (λ q. q.id) e in
      (found ∙ ap some (sym number), subst (λ n. p ≡ read_policy sysfs entry n s) (sym number) e)

  first_is :
      (entry : FilePath) (id : ℕ) (s : sysfs.State) (p : CpuPolicy)
      → policy_id entry ≡ some id
      → ReadFrom s entry p
      → p ≡ read_policy sysfs entry id s
  first_is entry id s p found (e, r) =
      let number : p.id ≡ id = cc in subst (λ n. p ≡ read_policy sysfs entry n s) number r

  pub In-read_policies :
      (entries : List FilePath) (s : sysfs.State) (p : CpuPolicy)
      → In p (read_policies sysfs entries s)
        ↔ ((entry : FilePath) × In entry entries × ReadFrom s entry p)
  unfolding read_policies
  In-read_policies [] s p = (λ m. absurd m, λ m. absurd m.1)
  In-read_policies (entry ∷ entries) s p = elim (Option-cases (policy_id entry)) [
    | inl skipped ↦
        rw (skipped, read_policies)
          (
            λ m. let (e, n, r) = (In-read_policies entries s p).0 m in (e, inr n, r),
            λ (e, n, r). elim n [
              | inl same ↦ absurd (none_not_some (sym skipped ∙ ap policy_id (sym same) ∙ r.0))
              | inr later ↦ (In-read_policies entries s p).1 (e, later, r)
            ],
          )
    | inr (id, found) ↦
        rw (found, read_policies)
          (
            elim [
              | inl same ↦ (entry, inl refl, read_back entry id s p found same)
              | inr later ↦ let (e, n, r) = (In-read_policies entries s p).0 later in (e, inr n, r)
            ],
            λ (e, n, r). elim n [
              | inl same ↦ inl (first_is entry id s p found (subst (λ x. ReadFrom s x p) same r))
              | inr later ↦ inr ((In-read_policies entries s p).1 (e, later, r))
            ],
          )
  ]
