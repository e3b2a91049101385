-- ===== src/Agent/Shared.antt =====
-- The atomic `last_reconcile_unix` that crates/power-agent/src/reconcile.rs writes while handlers of
-- crates/power-agent/src/http.rs read it, an access at a time.
pub mod Laws
use k8s_power_management.Base.{ℕ, ◌+◌, ◌<◌, ◌≡◌, ◌≢◌}
use k8s_power_management.Base.Int.{pos}
use k8s_power_management.Agent.Health.{Health, starting, healthz_handler, i64_limit}

-- Where the loop stands in `.store(now_unix(), ..)`: elsewhere, or behind the call of `now_unix`.
pub data Writer : Type 0 where
  elsewhere : Writer
  storing : (now : ℕ) → Writer

-- Where a handler of `/healthz` stands: before its load, behind it, or at its answer, with the times
-- that it has read.
pub data Reader : Type 0 where
  asked : Reader
  loaded : (last : ℕ) → Reader
  answered_early : Reader
  answered : (last now : ℕ) → Health → Reader

-- `clock` is what `now_unix` would answer, in seconds. Handlers only read, so one stands for all.
pub record Shared : Type 0 where
  pub clock : ℕ
  pub last_reconcile_unix : ℕ
  pub writer : Writer
  pub reader : Reader

-- One access, in any order of the threads; the clock goes forward between them.
pub data Step (threshold : ℕ) (s : Shared) (t : Shared) : Type 0 where
  time_passes :
      (n : ℕ) → s.clock + n < i64_limit → t ≡ record s { clock = s.clock + n } → Step threshold s t
  reads_clock :
      s.writer ≡ elsewhere → t ≡ record s { writer = storing s.clock } → Step threshold s t
  stores :
      (now : ℕ)
      → s.writer ≡ storing now
      → t ≡ record s { last_reconcile_unix = now; writer = elsewhere }
      → Step threshold s t
  asks : t ≡ record s { reader = asked } → Step threshold s t
  loads_zero :
      s.reader ≡ asked
      → s.last_reconcile_unix ≡ 0
      → t ≡ record s { reader = answered_early }
      → Step threshold s t
  loads :
      s.reader ≡ asked
      → s.last_reconcile_unix ≢ 0
      → t ≡ record s { reader = loaded s.last_reconcile_unix }
      → Step threshold s t
  answers :
      (last : ℕ)
      → s.reader ≡ loaded last
      → t ≡ record s {
        reader = answered last s.clock (healthz_handler (pos last) (pos s.clock) threshold);
      }
      → Step threshold s t

-- `AtomicI64::new(0)` in `main`, at some time.
abbrev pub at_start : ℕ → Shared
at_start clock = record {
  clock = clock;
  last_reconcile_unix = 0;
  writer = elsewhere;
  reader = asked;
}

pub data Reach (threshold start : ℕ) : Shared → Type 0 where
  here : Reach threshold start (at_start start)
  next : {s t : Shared} → Reach threshold start s → Step threshold s t → Reach threshold start t
