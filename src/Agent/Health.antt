-- ===== src/Agent/Health.antt =====
-- crates/power-agent/src/http.rs: `/healthz`, and the numbers of crates/power-agent/src/main.rs
-- that it depends on.
pub mod Laws
use k8s_power_management.Base.{
  ℕ, ◌+◌, ◌-◌, ◌*◌, Bool, Option, none, some, String, ltb, if◌then◌else◌,
}
use k8s_power_management.Base.Int.{ℤ, pos, negsuc, ◌-ℤ◌, leb_ℤ}
use k8s_power_management.Text.{u64_limit}

abbrev pub i64_limit : ℕ
i64_limit = 9_223_372_036_854_775_808

-- `saturating_sub` on `i64`.
unfoldable pub saturating_sub : ℤ → ℤ → ℤ
unfolding ◌-ℤ◌
saturating_sub a b =
    let d = a -ℤ b in
    if leb_ℤ (pos i64_limit) d
    then pos (i64_limit - 1)
    else if leb_ℤ d (negsuc i64_limit)
    then negsuc (i64_limit - 1)
    else d

-- `as u64` on an `i64`: the bit pattern, so a negative number becomes a large one.
unfoldable pub as_u64 : ℤ → ℕ
as_u64 (pos n) = n
as_u64 (negsuc n) = u64_limit - 1 - n

-- `as i64` on a `u64`.
unfoldable pub as_i64 : ℕ → ℤ
as_i64 n = if ltb n i64_limit then pos n else negsuc (u64_limit - 1 - n)

-- `now_unix`, by the seconds since the epoch; `none` for a clock before it.
unfoldable pub now_unix : Option ℕ → ℤ
now_unix none = pos 0
now_unix (some seconds) = as_i64 seconds

abbrev is_zero : ℤ → Bool
is_zero (pos n) = ltb n 1
is_zero (negsuc n) = Bool.false

-- The answers of the handler: `starting` and `ok` with status 200, and `stale` with 503.
pub data Health : Type 0 where
  starting stale healthy : Health

-- `last` is the time of the last reconcile, `now` that of the request, `threshold` in seconds.
unfoldable pub healthz_handler : ℤ → ℤ → ℕ → Health
unfolding saturating_sub as_u64
healthz_handler last now threshold =
    if is_zero last
    then starting
    else if ltb threshold (as_u64 (saturating_sub now last))
    then stale
    else healthy

-- `config.resync_interval * 3` of `main`: `none` is the panic of the multiplication of a `Duration`.
unfoldable pub staleness_threshold : ℕ → Option ℕ
staleness_threshold resync_interval =
    if ltb (resync_interval * 3) u64_limit then some (resync_interval * 3) else none
