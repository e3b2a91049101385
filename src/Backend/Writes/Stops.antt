-- ===== src/Backend/Writes/Stops.antt =====
-- Lemmas on the ends of the loop of the `apply` methods.
use k8s_power_management.Base.{
  String, ◌≡◌, ◌≢◌, ◌⊎◌, inl, inr, refl, sym, ◌∙◌, ap, subst, List, [], ◌∷◌, ◌++◌, Result, ok, err,
  All, All-of_All, All-zip, All-append_right, arith,
}
use k8s_power_management.FilePath.{FilePath}
use k8s_power_management.FilePath.Laws.{IsPlain}
use k8s_power_management.Error.{PowerError, io, IoError}
use k8s_power_management.Topology.{CpuPolicy}
use k8s_power_management.Sysfs.{SysfsIo, IsLawful}
use k8s_power_management.Backend.Writes.{write_each}
use k8s_power_management.Backend.Writes.Laws.{
  AreTargets, err-ne-ok, write_each-cases, Holds, written-Holds,
}

err-injective :
    {e e' : PowerError} → ◌≡◌ {A = Result (Unit {0}) PowerError} (err e) (err e') → e ≡ e'
err-injective h = cc

-- The policy's file takes any text.
abbrev pub Accepts : (sysfs : SysfsIo) → (CpuPolicy → FilePath) → CpuPolicy → Type 0
Accepts sysfs target p = (v : String) (s : sysfs.State) → (sysfs.write (target p) v s).0 ≡ ok tt

module _ (sysfs : SysfsIo) (target : CpuPolicy → FilePath)
    (value : CpuPolicy → Result String PowerError) where
  -- If no policy refuses, and every file takes what is written to it, the loop ends well.
  pub write_each_total :
      (ps : List CpuPolicy) (s : sysfs.State)
      → All (λ p. (v : String) × (value p ≡ ok v)) ps
      → All (Accepts sysfs target) ps
      → (write_each sysfs target value ps s).0 ≡ ok tt
  unfolding write_each
  write_each_total [] s good takes = refl
  write_each_total (p ∷ ps) s ((v, e), good) (take, takes) =
      rw (e, write_each)
        (ground (arith, take v s, write_each_total ps (sysfs.write (target p) v s).1 good takes))

  -- In a loop that ends well no policy refused.
  pub write_each-values :
      (ps : List CpuPolicy) (s : sysfs.State)
      → (write_each sysfs target value ps s).0 ≡ ok tt
      → All (λ p. (v : String) × (value p ≡ ok v)) ps
  write_each-values [] s good = tt
  write_each-values (p ∷ ps) s good = elim (write_each-cases sysfs target value p ps s) [
    | inl (e, refused, stop) ↦ absurd (err-ne-ok stop good)
    | inr (inl (v, source, accepted, stop)) ↦ absurd (err-ne-ok stop good)
    | inr (inr (v, accepted, done, next)) ↦
        ((v, accepted), write_each-values ps _ (ap (λ r. r.0) (sym next) ∙ good))
  ]

module _ (sysfs : SysfsIo) (target : CpuPolicy → FilePath)
    (value : CpuPolicy → Result String PowerError) where
  -- The policy's file has in `t` the text that it had in `s`.
  abbrev pub Kept : sysfs.State → sysfs.State → CpuPolicy → Type 0
  Kept s t p = sysfs.read_to_string (target p) t ≡ sysfs.read_to_string (target p) s

  -- Why the loop stopped at a policy: it refused, and its file is as it was, or the write failed.
  abbrev pub StopsAt : PowerError → sysfs.State → sysfs.State → CpuPolicy → Type 0
  StopsAt e s t p =
      ((value p ≡ err e) × Kept s t p) ⊎ ((source : IoError) × (e ≡ io (target p) source))

  -- The policies before that one hold their text, and those behind it are as they were.
  abbrev pub StoppedRun : PowerError → List CpuPolicy → sysfs.State → sysfs.State → Type 0
  StoppedRun e ps s t =
      (before : List CpuPolicy) × (p : CpuPolicy) × (after : List CpuPolicy) × (ps
        ≡ before ++ (p ∷ after))
      × All (Holds sysfs target value t) before
      × StopsAt e s t p
      × All (Kept s t) after

module _ (sysfs : SysfsIo) (L : IsLawful sysfs) (target : CpuPolicy → FilePath)
    (value : CpuPolicy → Result String PowerError) where
  Kept-others :
      (p : CpuPolicy) (ps : List CpuPolicy) (v : String) (s : sysfs.State)
      → All (λ q. IsPlain (target q)) (p ∷ ps)
      → All (λ q. target p ≢ target q) ps
      → All (Kept sysfs target value s (sysfs.write (target p) v s).1) ps
  Kept-others p ps v s plain apart =
      All-zip _ _ _
        (λ q plain_q differ. L.read-write_ne (target p) (target q) v s plain.0 plain_q differ) ps
        plain.1 apart

  -- A stop later in the list, seen from before a write to the file of `p`.
  StopsAt-write :
      (e : PowerError) (p q : CpuPolicy) (s s' t : sysfs.State)
      → Kept sysfs target value s s' q
      → StopsAt sysfs target value e s' t q
      → StopsAt sysfs target value e s t q
  StopsAt-write e p q s s' t same (inl (refused, kept)) = inl (refused, kept ∙ same)
  StopsAt-write e p q s s' t same (inr failed) = inr failed

  -- A run that ends in an error stopped at one policy, which refused or whose write failed.
  pub write_each-StoppedRun :
      (e : PowerError) (ps : List CpuPolicy) (s : sysfs.State)
      → AreTargets target ps
      → (write_each sysfs target value ps s).0 ≡ err e
      → StoppedRun sysfs target value e ps s (write_each sysfs target value ps s).1
  unfolding write_each
  write_each-StoppedRun e [] s targets bad = cc
  write_each-StoppedRun e (p ∷ ps) s (plain, apart) bad =
      elim (write_each-cases sysfs target value p ps s) [
        | inl (e', refused, stop) ↦ back stop (
          [],
          p,
          ps,
          refl,
          tt,
          inl (refused ∙ ap (λ x. err x) (same_error stop), refl),
          All-of_All (Kept sysfs target value s s) (λ q. refl) ps,
        )
        | inr (inl (v, source, accepted, stop)) ↦ back stop (
          [],
          p,
          ps,
          refl,
          tt,
          inr (source, sym (same_error stop)),
          Kept-others p ps v s plain apart.0,
        )
        | inr (inr (v, accepted, done, next)) ↦
            let s' = (sysfs.write (target p) v s).1 in
            let (before, q, after, split, held, stops, kept) =
              write_each-StoppedRun e ps s' (plain.1, apart.1) (ap (λ r. r.0) (sym next) ∙ bad) in
            let same = Kept-others p ps v s plain apart.0 in
            let rest = All-append_right _ before (q ∷ after) (subst (All _) split same) in
            back next (
              p ∷ before,
              q,
              after,
              ap (λ l. p ∷ l) split,
              (written-Holds sysfs L target value p ps v s (plain, apart) accepted done, held),
              StopsAt-write e p q s s' _ rest.0 stops,
              All-zip _ _ _ (λ x a b. b ∙ a) after rest.1 kept,
            )
      ]
    where
      back :
          {r : Result (Unit {0}) PowerError × sysfs.State}
          → write_each sysfs target value (p ∷ ps) s ≡ r
          → StoppedRun sysfs target value e (p ∷ ps) s r.1
          → StoppedRun sysfs target value e (p ∷ ps) s (write_each sysfs target value (p ∷ ps) s).1
      back same h = subst (λ r. StoppedRun sysfs target value e (p ∷ ps) s r.1) (sym same) h

      same_error :
          {e' : PowerError} {t : sysfs.State}
          → write_each sysfs target value (p ∷ ps) s ≡ (err e', t)
          → e' ≡ e
      same_error stop = err-injective (sym (ap (λ r. r.0) stop) ∙ bad)
