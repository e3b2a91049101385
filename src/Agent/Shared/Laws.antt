-- ===== src/Agent/Shared/Laws.antt =====
-- What holds in every order of the accesses to `last_reconcile_unix`.
use k8s_power_management.Base.{
  ℕ, ◌+◌, ◌*◌, ◌-◌, ◌<◌, ◌≤◌, ◌≡◌, ◌≢◌, ◌↔◌, refl, sym, subst, ◌∙◌, some, arith,
}
use k8s_power_management.Base.Int.{pos}
use k8s_power_management.Agent.Health.{
  Health, starting, stale, healthz_handler, staleness_threshold, i64_limit,
}
use k8s_power_management.Agent.Health.Laws.{healthz-forward}
use k8s_power_management.Agent.Shared.{
  Writer, elsewhere, storing, Reader, asked, loaded, answered_early, answered, Shared, Step,
  time_passes, reads_clock, stores, asks, loads_zero, loads, answers, at_start, Reach, here, next,
}

-- What the writer is about to store lies between the last time and the clock.
abbrev IsTimely : Writer → ℕ → ℕ → Type 0
IsTimely elsewhere last clock = Unit {0}
IsTimely (storing now) last clock = (last ≤ now) × (now ≤ clock)

-- What a reader holds is a time that has passed, and its answer is the handler's at its two times.
abbrev IsHonest : ℕ → Reader → ℕ → Type 0
IsHonest threshold asked clock = Unit {0}
IsHonest threshold answered_early clock = Unit {0}
IsHonest threshold (loaded last) clock = (0 < last) × (last ≤ clock)
IsHonest threshold (answered last now h) clock =
    (0 < last) × (last ≤ now) × (now ≤ clock) × (h ≡ healthz_handler (pos last) (pos now) threshold)

record Inv (threshold : ℕ) (s : Shared) : Type 0 where
  bounded : s.clock < i64_limit
  passed : s.last_reconcile_unix ≤ s.clock
  timely : IsTimely s.writer s.last_reconcile_unix s.clock
  honest : IsHonest threshold s.reader s.clock

IsTimely-later :
    (w : Writer) (last clock n : ℕ) → IsTimely w last clock → IsTimely w last (clock + n)
IsTimely-later elsewhere last clock n h = tt
IsTimely-later (storing now) last clock n h = omega arith

IsHonest-later :
    (threshold : ℕ) (r : Reader) (clock n : ℕ)
    → IsHonest threshold r clock
    → IsHonest threshold r (clock + n)
IsHonest-later threshold asked clock n h = tt
IsHonest-later threshold answered_early clock n h = tt
IsHonest-later threshold (loaded last) clock n h = omega arith
IsHonest-later threshold (answered last now x) clock n (a, b, c, e) = (a, b, omega arith, e)

Inv-at_start : (threshold start : ℕ) → start < i64_limit → Inv threshold (at_start start)
Inv-at_start threshold start h = record {
  bounded = h;
  passed = omega arith;
  timely = tt;
  honest = tt;
}

Step-Inv : {threshold : ℕ} {s t : Shared} → Inv threshold s → Step threshold s t → Inv threshold t
Step-Inv {threshold} {s} {t} inv (time_passes n fits e) = subst (Inv threshold) (sym e) (record {
  bounded = fits;
  passed = omega (arith, inv.passed);
  timely = IsTimely-later s.writer s.last_reconcile_unix s.clock n inv.timely;
  honest = IsHonest-later threshold s.reader s.clock n inv.honest;
})
Step-Inv {threshold} {s} {t} inv (reads_clock idle e) = subst (Inv threshold) (sym e) (record {
  bounded = inv.bounded;
  passed = inv.passed;
  timely = (inv.passed, omega arith);
  honest = inv.honest;
})
Step-Inv {threshold} {s} {t} inv (stores now w e) =
    let timely : IsTimely (storing now) s.last_reconcile_unix s.clock =
      subst (λ x. IsTimely x s.last_reconcile_unix s.clock) w inv.timely in
    subst (Inv threshold) (sym e)
      (record { bounded = inv.bounded; passed = timely.1; timely = tt; honest = inv.honest })
Step-Inv {threshold} {s} {t} inv (asks e) =
    subst (Inv threshold) (sym e)
      (record { bounded = inv.bounded; passed = inv.passed; timely = inv.timely; honest = tt })
Step-Inv {threshold} {s} {t} inv (loads_zero r z e) =
    subst (Inv threshold) (sym e)
      (record { bounded = inv.bounded; passed = inv.passed; timely = inv.timely; honest = tt })
Step-Inv {threshold} {s} {t} inv (loads r nonzero e) = subst (Inv threshold) (sym e) (record {
  bounded = inv.bounded;
  passed = inv.passed;
  timely = inv.timely;
  honest = (omega arith, inv.passed);
})
Step-Inv {threshold} {s} {t} inv (answers last r e) =
    let held : IsHonest threshold (loaded last) s.clock =
      subst (λ x. IsHonest threshold x s.clock) r inv.honest in
    subst (Inv threshold) (sym e) (record {
      bounded = inv.bounded;
      passed = inv.passed;
      timely = inv.timely;
      honest = (held.0, held.1, omega arith, refl);
    })

Reach-Inv :
    {threshold start : ℕ} {s : Shared}
    → start < i64_limit
    → Reach threshold start s
    → Inv threshold s
Reach-Inv {threshold} {start} h here = Inv-at_start threshold start h
Reach-Inv h (next r st) = Step-Inv (Reach-Inv h r) st

-- In every order of the accesses of loop and handlers, while the clock is not set back: an answer that
-- a handler gives behind its load is `stale` exactly when more than three resync intervals lie between
-- the two times that it has read, which are no negative age apart, and it is never `starting`.
pub answers_timely :
    (interval threshold start : ℕ) {s : Shared}
    → staleness_threshold interval ≡ some threshold
    → start < i64_limit
    → Reach threshold start s
    → (last now : ℕ) (h : Health) → s.reader ≡ answered last now h
    → (last ≤ now) × ((h ≡ stale) ↔ (3 * interval < now - last)) × (h ≢ starting)
answers_timely interval threshold start {s = s} fits early r last now h at_answer =
    let inv = Reach-Inv early r in
    let (positive, passed, read, given) : IsHonest threshold (answered last now h) s.clock =
      subst (λ x. IsHonest threshold x s.clock) at_answer inv.honest in
    let within : now < i64_limit = omega (arith, inv.bounded) in
    let (stale_iff, not_starting) =
      healthz-forward interval threshold last now fits positive passed within in
    (
      passed,
      ((λ e. stale_iff.0 (sym given ∙ e)), (λ late. given ∙ stale_iff.1 late)),
      (λ e. not_starting (sym given ∙ e)),
    )
