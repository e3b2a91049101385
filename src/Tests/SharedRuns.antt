-- ===== src/Tests/SharedRuns.antt =====
-- An order of the accesses to `last_reconcile_unix`, and the theorems about all of them.
use k8s_power_management.Base.{◌≡◌, ◌≢◌, ◌↔◌, ◌≤◌, ◌<◌, ◌-◌, ◌*◌, refl, arith}
use k8s_power_management.Base.Int.{pos}
use k8s_power_management.Agent.Health.{stale, starting, healthz_handler}
use k8s_power_management.Agent.Shared.{
  Shared, elsewhere, storing, asked, loaded, answered, time_passes, reads_clock, stores, loads,
  answers, Reach, here, next,
}
use k8s_power_management.Agent.Shared.Laws.{answers_timely}
use k8s_power_management.Tests.LoopRuns.{threshold_900}

-- The loop stores 1000, and a probe that has loaded it looks at the clock 901 seconds later.
abbrev behind_clock : Shared
behind_clock = record {
  clock = 1_000;
  last_reconcile_unix = 0;
  writer = storing 1_000;
  reader = asked;
}

abbrev stored : Shared
stored = record { clock = 1_000; last_reconcile_unix = 1_000; writer = elsewhere; reader = asked }

abbrev behind_load : Shared
behind_load = record stored { reader = loaded 1_000 }

abbrev later : Shared
later = record behind_load { clock = 1_901 }

abbrev probed : Shared
probed = record later {
  reader = answered 1_000 1_901 (healthz_handler (pos 1_000) (pos 1_901) 900);
}

reads : Reach 900 1_000 behind_clock
reads = next here (reads_clock refl refl)

probes : Reach 900 1_000 probed
probes =
    next
      (next (next (next reads (stores 1_000 refl refl)) (loads refl (omega arith) refl))
        (time_passes 901 (omega arith) refl))
      (answers 1_000 refl refl)

answers_timely_example :
    let h = healthz_handler (pos 1_000) (pos 1_901) 900 in
    (1_000 ≤ 1_901) × ((h ≡ stale) ↔ (3 * 300 < 1_901 - 1_000)) × (h ≢ starting)
answers_timely_example =
    answers_timely 300 900 1_000 threshold_900 (omega arith) probes 1_000 1_901
      (healthz_handler (pos 1_000) (pos 1_901) 900) refl
