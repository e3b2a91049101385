-- ===== src/Agent/Signals.antt =====
-- `shutdown_signal` of crates/power-agent/src/main.rs.
use k8s_power_management.Base.{
  ◌≡◌, ◌↔◌, ◌⊎◌, inl, inr, refl, Bool, true, false, List, [], ◌∷◌, In, if◌then◌else◌,
}

pub data Signal : Type 0 where
  terminate interrupt : Signal

-- Whether the handlers of the two signals could be installed. `ctrl_c()` returns at once, with an
-- error that is ignored, when its own could not.
pub record Handlers : Type 0 where
  pub sigterm : Bool
  pub ctrl_c : Bool

abbrev ends_on : Bool → Signal → Bool
ends_on sigterm terminate = sigterm
ends_on sigterm interrupt = true

-- The wait for the first signal that it listens to.
abbrev waits : Bool → List Signal → Bool
waits sigterm [] = false
waits sigterm (signal ∷ rest) = if ends_on sigterm signal then true else waits sigterm rest

-- Whether it returns, given the signals that arrive. Without a handler, SIGTERM is not seen here.
unfoldable pub shutdown_signal : Handlers → List Signal → Bool
shutdown_signal h signals = if h.ctrl_c then waits h.sigterm signals else true

abbrev IsListened : Bool → List Signal → Type 0
IsListened sigterm signals = In interrupt signals ⊎ ((sigterm ≡ true) × In terminate signals)

-- What makes it return: a failure of `ctrl_c`, an interrupt, or a SIGTERM that has a handler.
abbrev pub Stops : Handlers → List Signal → Type 0
Stops h signals = (h.ctrl_c ≡ false) ⊎ IsListened h.sigterm signals

waits_iff :
    (sigterm : Bool) (signals : List Signal)
    → (waits sigterm signals ≡ true) ↔ IsListened sigterm signals
waits_iff sigterm [] = (λ e. absurd (cc), elim [ inl m ↦ absurd m | inr (_, m) ↦ absurd m ])
waits_iff sigterm (interrupt ∷ rest) = (λ _. inl (inl refl), λ _. refl)
waits_iff true (terminate ∷ rest) = (λ _. inr (refl, inl refl), λ _. refl)
waits_iff false (terminate ∷ rest) =
    let later = waits_iff false rest in
    (
      λ e. elim (later.0 e) [ inl m ↦ inl (inr m) | inr (broken, m) ↦ absurd (cc) ],
      elim [
        | inl (inl e) ↦ absurd (cc)
        | inl (inr m) ↦ later.1 (inl m)
        | inr (broken, m) ↦ absurd (cc)
      ],
    )

shutdown_iff :
    (ctrl_c sigterm : Bool) (signals : List Signal)
    → ((if ctrl_c then waits sigterm signals else true) ≡ true)
      ↔ ((ctrl_c ≡ false) ⊎ IsListened sigterm signals)
shutdown_iff false sigterm signals = (λ _. inl refl, λ _. refl)
shutdown_iff true sigterm signals =
    let law = waits_iff sigterm signals in
    (λ e. inr (law.0 e), elim [ inl broken ↦ absurd (cc) | inr m ↦ law.1 m ])

pub shutdown_signal_iff :
    (h : Handlers) (signals : List Signal) → (shutdown_signal h signals ≡ true) ↔ Stops h signals
unfolding shutdown_signal
shutdown_signal_iff h signals = shutdown_iff h.ctrl_c h.sigterm signals
