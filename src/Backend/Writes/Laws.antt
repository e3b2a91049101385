-- ===== src/Backend/Writes/Laws.antt =====
-- Lemmas on what the loop of the `apply` methods writes, over a lawful `SysfsIo`.
use k8s_power_management.Base.{
  String, ◌≡◌, ◌≢◌, ◌⊎◌, inl, inr, refl, sym, ◌∙◌, ap, subst, List, [], ◌∷◌, Result, ok, err, All,
  All-map, All-zip, AllPairs, Result-cases, arith,
}
use k8s_power_management.Text.{trim_newlines}
use k8s_power_management.FilePath.{FilePath}
use k8s_power_management.FilePath.Laws.{IsPlain}
use k8s_power_management.Error.{PowerError, io, IoError}
use k8s_power_management.Topology.{CpuPolicy}
use k8s_power_management.Sysfs.{SysfsIo, IsLawful}
use k8s_power_management.Backend.Writes.{write_each}

pub err-ne-ok :
    {S : Type 0} {r : Result (Unit {0}) PowerError × S} {e : PowerError} {s : S}
    → r ≡ (err e, s)
    → ¬ (r.0 ≡ ok tt)
err-ne-ok stop good = let clash : err _ ≡ ok tt = ap (λ r. r.0) (sym stop) ∙ good in cc

-- The targets are plain paths, each its own file.
abbrev pub AreTargets : (CpuPolicy → FilePath) → List CpuPolicy → Type 0
AreTargets target ps = All (λ p. IsPlain (target p)) ps × AllPairs (λ p q. target p ≢ target q) ps

module _ (sysfs : SysfsIo) (target : CpuPolicy → FilePath)
    (value : CpuPolicy → Result String PowerError) where
  abbrev pub W : List CpuPolicy → sysfs.State → Result (Unit {0}) PowerError × sysfs.State
  W = write_each sysfs target value

  abbrev pub written : CpuPolicy → String → sysfs.State → Result (Unit {0}) IoError × sysfs.State
  written p v s = sysfs.write (target p) v s

  -- The three ways in which one round goes.
  pub write_each-cases :
      (p : CpuPolicy) (ps : List CpuPolicy) (s : sysfs.State)
      → ((e : PowerError) × (value p ≡ err e) × (W (p ∷ ps) s ≡ (err e, s)))
        ⊎ ((v : String) × (source : IoError) × (value p ≡ ok v)
            × (W (p ∷ ps) s ≡ (err (io (target p) source), (written p v s).1)))
        ⊎ ((v : String) × (value p ≡ ok v)
            × ((written p v s).0 ≡ ok tt)
            × (W (p ∷ ps) s ≡ W ps (written p v s).1))
  unfolding write_each
  write_each-cases p ps s = elim (Result-cases (value p)) [
    | inr (e, refused) ↦ inl (e, refused, rw (refused, write_each))
    | inl (v, accepted) ↦ elim (Result-cases (written p v s).0) [
      | inr (source, failed) ↦
          inr (inl (v, source, accepted, rw (accepted, write_each) (ground arith)))
      | inl (_, done) ↦ inr (inr (v, accepted, done, rw (accepted, write_each) (ground arith)))
    ]
  ]

  -- The policy's file holds the text that was due to it.
  abbrev pub Holds : sysfs.State → CpuPolicy → Type 0
  Holds s p =
      (v : String) × (value p ≡ ok v) × (sysfs.read_to_string (target p) s ≡ ok (trim_newlines v))

module _ (sysfs : SysfsIo) (L : IsLawful sysfs) (target : CpuPolicy → FilePath)
    (value : CpuPolicy → Result String PowerError) where
  -- Whatever no write to a target changes, the loop does not change, whether it ends well or not.
  pub unseen-write_each :
      {B : Type 0} (look : sysfs.State → B) (ps : List CpuPolicy) (s : sysfs.State)
      → All (λ p. (v : String) (t : sysfs.State) → look (sysfs.write (target p) v t).1 ≡ look t) ps
      → look (write_each sysfs target value ps s).1 ≡ look s
  unfolding write_each
  unseen-write_each look [] s blind = refl
  unseen-write_each look (p ∷ ps) s blind = elim (write_each-cases sysfs target value p ps s) [
    | inl (e, refused, stop) ↦ ap (λ r. look r.1) stop
    | inr (inl (v, source, accepted, stop)) ↦ ap (λ r. look r.1) stop ∙ blind.0 v s
    | inr (inr (v, accepted, done, next)) ↦
        ap (λ r. look r.1) next
        ∙ unseen-write_each look ps (sysfs.write (target p) v s).1 blind.1
        ∙ blind.0 v s
  ]

  -- A file that is no target keeps its text.
  pub read-write_each_ne :
      (q : FilePath) (ps : List CpuPolicy) (s : sysfs.State)
      → IsPlain q
      → All (λ p. IsPlain (target p)) ps
      → All (λ p. target p ≢ q) ps
      → sysfs.read_to_string q (write_each sysfs target value ps s).1 ≡ sysfs.read_to_string q s
  read-write_each_ne q ps s plain targets apart =
      unseen-write_each (sysfs.read_to_string q) ps s
        (All-zip _ _ _ (λ p h ne v t. L.read-write_ne (target p) q v t h plain ne) ps targets apart)

  -- Nor does it come into being or go away.
  pub exists-write_each_ne :
      (q : FilePath) (ps : List CpuPolicy) (s : sysfs.State)
      → IsPlain q
      → All (λ p. IsPlain (target p)) ps
      → All (λ p. target p ≢ q) ps
      → sysfs.exists q (write_each sysfs target value ps s).1 ≡ sysfs.exists q s
  exists-write_each_ne q ps s plain targets apart =
      unseen-write_each (sysfs.exists q) ps s (
        All-zip _ _ _ (λ p h ne v t. L.exists-write_ne (target p) q v t h plain ne) ps targets
          apart)

  pub written-Holds :
      (p : CpuPolicy) (ps : List CpuPolicy) (v : String) (s : sysfs.State)
      → AreTargets target (p ∷ ps)
      → value p ≡ ok v
      → (sysfs.write (target p) v s).0 ≡ ok tt
      → Holds sysfs target value
          (write_each sysfs target value ps (sysfs.write (target p) v s).1).1
          p
  written-Holds p ps v s (plain, apart) accepted done = (
    v,
    accepted,
    read-write_each_ne (target p) ps (sysfs.write (target p) v s).1 plain.0 plain.1
          (All-map _ _ (λ q differ e. differ (sym e)) ps apart.0)
        ∙ L.read-write (target p) v s plain.0 done,
  )

  -- After a run that ends well every policy's file holds its text.
  pub write_each-Holds :
      (ps : List CpuPolicy) (s : sysfs.State)
      → AreTargets target ps
      → (write_each sysfs target value ps s).0 ≡ ok tt
      → All (Holds sysfs target value (write_each sysfs target value ps s).1) ps
  unfolding write_each
  write_each-Holds [] s targets good = tt
  write_each-Holds (p ∷ ps) s targets good = elim (write_each-cases sysfs target value p ps s) [
    | inl (e, refused, stop) ↦ absurd (err-ne-ok stop good)
    | inr (inl (v, source, accepted, stop)) ↦ absurd (err-ne-ok stop good)
    | inr (inr (v, accepted, done, next)) ↦
        subst (λ r. All (Holds sysfs target value r.1) (p ∷ ps)) (sym next)
          (
            written-Holds p ps v s targets accepted done,
            write_each-Holds ps (sysfs.write (target p) v s).1 (targets.0.1, targets.1.1)
                (ap (λ r. r.0) (sym next) ∙ good),
          )
  ]
