-- ===== src/Agent/Reconcile/Recording.antt =====
-- The double `RecordingBackend` of the tests in crates/power-agent/src/reconcile.rs, and what a
-- reconcile asks of any backend.
use k8s_power_management.Base.{
  String, ◌≡◌, ◌⊎◌, inl, inr, refl, sym, ◌∙◌, ap, Bool, true, Option, none, some, List, [], ◌∷◌,
  ◌++◌, ok, err, Option-cases, if◌then◌else◌,
}
use k8s_power_management.Error.{PowerError, Format}
use k8s_power_management.Profile.{PowerProfile}
use k8s_power_management.Backend.Interface.{BackendKind, PowerBackend}
use k8s_power_management.Agent.Reconcile.{
  reconcile_once, parse_profile_label, parse_turbo_label, try_turbo,
}

-- The two vectors behind mutexes, the last call last.
pub record Calls : Type 0 where
  pub applied : List PowerProfile
  pub turbo_calls : List Bool

abbrev pub no_calls : Calls
no_calls = record { applied = []; turbo_calls = [] }

abbrev last : List PowerProfile → Option PowerProfile
last [] = none
last (p ∷ []) = some p
last (p ∷ q ∷ ps) = last (q ∷ ps)

-- Its other two fields are the arguments.
abbrev pub recording_backend : Bool → BackendKind → PowerBackend Calls
recording_backend turbo_unsupported kind = record {
  kind = kind;
  is_supported = true;
  apply = λ profile calls. (ok tt, record calls { applied = calls.applied ++ (profile ∷ []) });
  current = λ calls. (ok (last calls.applied), calls);
  set_turbo = λ enabled calls. (
    if turbo_unsupported then err PowerError.turbo_unsupported else ok tt,
    record calls { turbo_calls = calls.turbo_calls ++ (enabled ∷ []) },
  );
}

module _ {S : Type 0} (backend : PowerBackend S) where
  -- The recorded calls, made on another backend.
  abbrev pub replay_applied : List PowerProfile → S → S
  replay_applied [] s = s
  replay_applied (p ∷ ps) s = replay_applied ps (backend.apply p s).1

  abbrev pub replay_turbo : List Bool → S → S
  replay_turbo [] s = s
  replay_turbo (b ∷ bs) s = replay_turbo bs (backend.set_turbo b s).1

  abbrev pub replay : Calls → S → S
  replay calls s = replay_turbo calls.turbo_calls (replay_applied calls.applied s)

abbrev turbo_list : Option Bool → List Bool
turbo_list none = []
turbo_list (some b) = b ∷ []

module _ (f : Format) (no_turbo : Bool) (kind : BackendKind) where
  recorded-try_turbo :
      (t : Option Bool) (p : PowerProfile)
      → (try_turbo f
          (recording_backend no_turbo kind)
          t
          (record { applied = p ∷ []; turbo_calls = [] })).1
        ≡ record { applied = p ∷ []; turbo_calls = turbo_list t }
  unfolding try_turbo
  recorded-try_turbo none p = refl
  recorded-try_turbo (some b) p = refl

  recorded :
      (profile_label turbo_label : Option String)
      → (reconcile_once f (recording_backend no_turbo kind) profile_label turbo_label no_calls).1
        ≡ record {
          applied = (parse_profile_label profile_label).0 ∷ [];
          turbo_calls = turbo_list (parse_turbo_label turbo_label).0;
        }
  unfolding reconcile_once
  recorded profile_label turbo_label =
      recorded-try_turbo (parse_turbo_label turbo_label).0 (parse_profile_label profile_label).0

module _ (f : Format) {S : Type 0} (backend : PowerBackend S) where
  try_turbo-replay :
      (t : Option Bool) (s : S)
      → (try_turbo f backend t s).1 ≡ replay_turbo backend (turbo_list t) s
  unfolding try_turbo
  try_turbo-replay none s = refl
  try_turbo-replay (some b) s = refl

  once-replay :
      (profile_label turbo_label : Option String) (s : S)
      → (reconcile_once f backend profile_label turbo_label s).1
        ≡ replay backend
            (record {
              applied = (parse_profile_label profile_label).0 ∷ [];
              turbo_calls = turbo_list (parse_turbo_label turbo_label).0;
            })
            s
  unfolding reconcile_once
  once-replay profile_label turbo_label s =
      try_turbo-replay (parse_turbo_label turbo_label).0
        (backend.apply (parse_profile_label profile_label).0 s).1

  -- What a reconcile does to a machine is what the recording double writes down, made on it: one
  -- `apply`, and then at most one `set_turbo`. It depends on the labels alone, never on the answers
  -- of the backend, its kind, or the state.
  pub reconcile_once-replay :
      (profile_label turbo_label : Option String) (s : S) (no_turbo : Bool) (kind : BackendKind)
      → let calls =
          (reconcile_once f
            (recording_backend no_turbo kind)
            profile_label
            turbo_label
            no_calls).1 in
        ((reconcile_once f backend profile_label turbo_label s).1 ≡ replay backend calls s)
        × ((p : PowerProfile) × (calls.applied ≡ p ∷ []))
        × ((calls.turbo_calls ≡ []) ⊎ ((enabled : Bool) × (calls.turbo_calls ≡ enabled ∷ [])))
  reconcile_once-replay profile_label turbo_label s no_turbo kind =
      let e = recorded f no_turbo kind profile_label turbo_label in
      (
        once-replay profile_label turbo_label s ∙ ap (λ c. replay backend c s) (sym e),
        ((parse_profile_label profile_label).0, ap (λ c. c.applied) e),
        elim (Option-cases (parse_turbo_label turbo_label).0) [
          | inl quiet ↦ inl (ap (λ c. c.turbo_calls) e ∙ ap turbo_list quiet)
          | inr (b, asked) ↦ inr (b, ap (λ c. c.turbo_calls) e ∙ ap turbo_list asked)
        ],
      )
