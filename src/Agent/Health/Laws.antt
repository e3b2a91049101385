-- ===== src/Agent/Health/Laws.antt =====
-- Lemmas on `healthz_handler` of crates/power-agent/src/http.rs.
use k8s_power_management.Base.{
  ℕ, zero, suc, ◌-◌, ◌*◌, ◌<◌, ◌≤◌, ◌≡◌, ◌≢◌, ◌↔◌, refl, sym, ◌∙◌, Bool, true, false, some, none,
  ltb, arith, if◌then◌else◌,
}
use k8s_power_management.Base.Int.{ℤ, pos, ◌-ℤ◌}
use k8s_power_management.Text.{u64_limit}
use k8s_power_management.Agent.Health.{
  i64_limit, saturating_sub, as_u64, as_i64, now_unix, starting, stale, healthy, healthz_handler,
  staleness_threshold,
}

-- A test that holds, and one that fails.
when {ℓ} : {A : Type ℓ} (b : Bool) (x y : A) → b ≡ true → (if b then x else y) ≡ x
when true x y e = refl
when false x y e = absurd (cc)

unless {ℓ} : {A : Type ℓ} (b : Bool) (x y : A) → b ≡ false → (if b then x else y) ≡ y
unless false x y e = refl
unless true x y e = absurd (cc)

-- The age in seconds that the handler computes.
age : ℤ → ℤ → ℕ
age last now = as_u64 (saturating_sub now last)

age-forward : (l n : ℕ) → l ≤ n → n < i64_limit → age (pos l) (pos n) ≡ n - l
unfolding age saturating_sub as_u64 ◌-ℤ◌
age-forward l n h b = ground arith

age-back : (l n : ℕ) → n < l → l < i64_limit → age (pos l) (pos n) ≡ u64_limit - (l - n)
unfolding age saturating_sub as_u64 ◌-ℤ◌
age-back l n h b = ground arith

healthz-age :
    (l : ℕ) (now : ℤ) (threshold : ℕ)
    → healthz_handler (pos (suc l)) now threshold
      ≡ (if ltb threshold (age (pos (suc l)) now) then stale else healthy)
unfolding healthz_handler age
healthz-age l now threshold = ground arith

ltb_iff : (a b : ℕ) → (ltb a b ≡ true) ↔ (a < b)
ltb_iff a b = (λ h. ground arith, λ h. ground arith)

stale_iff : (b : Bool) → ((if b then stale else healthy) ≡ stale) ↔ (b ≡ true)
stale_iff true = (λ _. refl, λ _. refl)
stale_iff false = (λ h. absurd (cc), λ h. absurd (cc))

healthz_stale_iff :
    (l : ℕ) (now : ℤ) (threshold : ℕ)
    → (healthz_handler (pos (suc l)) now threshold ≡ stale) ↔ (threshold < age (pos (suc l)) now)
healthz_stale_iff l now threshold =
    let shown = healthz-age l now threshold in
    let tested = stale_iff (ltb threshold (age (pos (suc l)) now)) in
    let compared = ltb_iff threshold (age (pos (suc l)) now) in
    (λ h. compared.0 (tested.0 (sym shown ∙ h)), λ h. shown ∙ tested.1 (compared.1 h))

-- Between two reconciles, with the clock not set back: the answer is `stale` exactly when more than
-- three resync intervals have passed since the last reconcile, and `starting` is never given.
pub healthz-forward :
    (interval threshold last now : ℕ)
    → staleness_threshold interval ≡ some threshold
    → 0 < last
    → last ≤ now
    → now < i64_limit
    → ((healthz_handler (pos last) (pos now) threshold ≡ stale) ↔ (3 * interval < now - last))
      × (healthz_handler (pos last) (pos now) threshold ≢ starting)
unfolding staleness_threshold
healthz-forward interval threshold zero now t p h b = absurd (omega arith)
healthz-forward interval threshold (suc l) now t p h b =
    let bound : threshold ≡ 3 * interval = ground arith in
    let late = healthz_stale_iff l (pos now) threshold in
    let aged = age-forward (suc l) now h b in
    (
      (λ e. let older = late.0 e in omega arith, λ older. late.1 (omega arith)),
      λ e. let shown = healthz-age l (pos now) threshold in ground arith,
    )

-- Once the clock is set back to before the last reconcile, the answer is `stale`, for every
-- threshold that an `i64` can hold.
pub healthz-clock_back :
    (last now threshold : ℕ)
    → now < last
    → last < i64_limit
    → threshold < i64_limit
    → healthz_handler (pos last) (pos now) threshold ≡ stale
healthz-clock_back zero now threshold h b t = absurd (omega arith)
healthz-clock_back (suc l) now threshold h b t =
    let aged = age-back (suc l) now h b in (healthz_stale_iff l (pos now) threshold).1 (omega arith)

-- The two casts are inverse: no time that fits 64 bits is lost between `now_unix` and the age.
as_u64-as_i64 : (n : ℕ) → n < u64_limit → as_u64 (as_i64 n) ≡ n
unfolding as_i64 as_u64
as_u64-as_i64 n fits = ground arith

-- A reconcile while the clock is before the epoch does not show: the answer stays `starting`.
healthz-before_epoch :
    (now : ℤ) (threshold : ℕ) → healthz_handler (now_unix none) now threshold ≡ starting
unfolding healthz_handler now_unix
healthz-before_epoch now threshold = refl

-- After it, below the limit of `i64`, the seconds are kept.
now_unix-some : (n : ℕ) → n < i64_limit → now_unix (some n) ≡ pos n
unfolding now_unix as_i64
now_unix-some n fits = ground arith
