-- ===== src/Cli/Readers.antt =====
-- Lemmas on the commands `probe` and `read` of crates/pstate-cli/src/main.rs.
use k8s_power_management.Base.{
  ◌≡◌, ◌↔◌, refl, ap, ◌∙◌, Option, none, some, Result, ok, err, Result-cases, inl, inr,
}
use k8s_power_management.Error.{PowerError, Format}
use k8s_power_management.Profile.{PowerProfile}
use k8s_power_management.Sysfs.{SysfsIo}
use k8s_power_management.Topology.{discover_policies}
use k8s_power_management.Backend.Interface.{Host}
use k8s_power_management.Backend.Epp.Kept.{epp_current-files}
use k8s_power_management.Backend.Governor as Governor
use k8s_power_management.Backend.Unsupported as Unsupported
use k8s_power_management.Backend.Detect.{
  Backend, epp, governor, no_backend, detect_backend, methods, fresh,
}
use k8s_power_management.Backend.Interface.{PowerBackend}
use k8s_power_management.Cli.{failure, read_lines, probe_lines, probe, read}

module _ (sysfs : SysfsIo) where
  current-files : (b : Backend) (h : Host sysfs) → ((methods sysfs b).current h).1.files ≡ h.files
  unfolding Governor.current Unsupported.current
  current-files (epp b) h = epp_current-files sysfs b h
  current-files (governor b) h = refl
  current-files no_backend h = refl

  read_lines-machine :
      (f : Format) (backend : PowerBackend (Host sysfs))
      (r : Result (Option PowerProfile) PowerError × Host sysfs)
      → (read_lines f backend r).2 ≡ r.1
  unfolding read_lines
  read_lines-machine f backend (ok (some p), h) = refl
  read_lines-machine f backend (ok none, h) = refl
  read_lines-machine f backend (err e, h) = refl

  probe_lines-machine :
      (f : Format) (backend : PowerBackend (Host sysfs))
      (r : Result (Option PowerProfile) PowerError × Host sysfs)
      → (probe_lines f backend r).1 ≡ r.1
  unfolding probe_lines
  probe_lines-machine f backend (ok (some p), h) = refl
  probe_lines-machine f backend (ok none, h) = refl
  probe_lines-machine f backend (err e, h) = refl

  read-files : (f : Format) (s : sysfs.State) → (read f sysfs s).2.files ≡ s
  unfolding read
  read-files f s =
      let b = methods sysfs (detect_backend sysfs s) in
      ap (λ h. h.files) (read_lines-machine f b (b.current (fresh sysfs s)))
      ∙ current-files (detect_backend sysfs s) (fresh sysfs s)

  probe-files : (f : Format) (s : sysfs.State) → (probe f sysfs s).2.files ≡ s
  unfolding probe
  probe-files f s =
      let b = methods sysfs (detect_backend sysfs s) in
      elim (Result-cases (discover_policies sysfs s)) [
        | inl (ps, found) ↦
            rw (probe, found)
              (ap (λ h. h.files) (probe_lines-machine f b (b.current (fresh sysfs s)))
                ∙ current-files (detect_backend sysfs s) (fresh sysfs s))
        | inr (e, failed) ↦ rw (probe, failed) refl
      ]

  -- The commands `probe` and `read` leave every file as it was, and a `probe` that fails is one whose
  -- discovery failed.
  pub readers_keep_files :
      (f : Format) (s : sysfs.State)
      → ((probe f sysfs s).2.files ≡ s)
        × ((read f sysfs s).2.files ≡ s)
        × (((probe f sysfs s).0 ≡ failure)
            ↔ ((e : PowerError) × (discover_policies sysfs s ≡ err e)))
  unfolding probe
  readers_keep_files f s = (
    probe-files f s,
    read-files f s,
    elim (Result-cases (discover_policies sysfs s)) [
      | inl (ps, found) ↦ rw (probe, found) (λ x. absurd (cc), λ (e, bad). absurd (cc))
      | inr (e, failed) ↦ rw (probe, failed) (λ x. (e, refl), λ x. refl)
    ],
  )
