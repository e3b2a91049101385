-- ===== src/Cli.antt =====
-- crates/pstate-cli/src/main.rs: the commands of the debugging program. Its parsed arguments are
-- values of `Command`; a command returns what it prints and its exit code.
pub mod Laws
pub mod Readers
pub mod Agreement
use k8s_power_management.Base.{
  ℕ, String, ◌<>◌, Bool, true, false, ◌||◌, ◌&&◌, Option, none, some, List, [], ◌∷◌, ◌++◌, Result,
  ok, err, length, is_empty, ◌==◌, str_eq, if◌then◌else◌,
}
use k8s_power_management.Text.{decimal}
use k8s_power_management.Error.{PowerError, Format, error_text}
use k8s_power_management.Profile.{PowerProfile, as_kernel_str, from_str}
use k8s_power_management.Topology.{CpuPolicy, discover_policies}
use k8s_power_management.Sysfs.{SysfsIo}
use k8s_power_management.Backend.Interface.{PowerBackend, Host, kind_text}
use k8s_power_management.Backend.Detect.{Backend, detect_backend, methods, fresh}

pub data Command : Type 0 where
  probe_command : Command
  apply_command : Option String → Option String → Command
  read_command : Command

pub data ExitCode : Type 0 where
  success failure : ExitCode

-- A line on the standard output or on the standard error stream.
pub data Line : Type 0 where
  out : String → Line
  eprint : String → Line

abbrev comma_separated : List String → String
comma_separated [] = ""
comma_separated (x ∷ []) = x
comma_separated (x ∷ y ∷ rest) = x <> (", " <> comma_separated (y ∷ rest))

abbrev bool_text : Bool → String
bool_text b = if b then "true" else "false"

policy_line : CpuPolicy → String
policy_line p =
    "  policy"
    <> (decimal p.id
        <> (": driver="
            <> (p.scaling_driver
                <> (" epp="
                    <> (bool_text p.has_epp
                        <> (" governors=["
                            <> (comma_separated p.available_governors
                                <> ("]"
                                    <> (if p.has_epp
                                        then " epp_values=["
                                          <> (comma_separated p.available_epp <> "]")
                                        else "")))))))))

policy_lines : List CpuPolicy → List Line
policy_lines [] = []
policy_lines (p ∷ ps) = out (policy_line p) ∷ policy_lines ps

topology_lines : List CpuPolicy → List Line
topology_lines [] =
    out "no cpufreq policies found under /sys/devices/system/cpu/cpufreq"
    ∷ out "this host will use the Unsupported backend (all operations are no-ops)"
    ∷ []
topology_lines (p ∷ ps) =
    out (
      "found "
      <> (decimal (length (p ∷ ps))
          <> (" cpufreq polic" <> (if length (p ∷ ps) == 1 then "y" else "ies"))))
    ∷ policy_lines (p ∷ ps)

-- What the three states of `apply` are: the exit flag `ok`, the lines, and the machine.
pub record Progress (S : Type 0) : Type 0 where
  pub good : Bool
  pub lines : List Line
  pub machine : S

abbrev Outcome : Type 0 → Type 0
Outcome S = ExitCode × List Line × S

module _ (f : Format) {S : Type 0} (backend : PowerBackend S) where
  abbrev say : Bool → Line → Progress S → S → Progress S
  say good line g s = record { good = g.good && good; lines = g.lines ++ (line ∷ []); machine = s }

  profile_result :
      String → PowerProfile → Result (Unit {0}) PowerError × S → Progress S → Progress S
  profile_result raw p (ok _, s) g = say true (out ("applied profile: " <> as_kernel_str p)) g s
  profile_result raw p (err e, s) g =
      say false (eprint ("failed to apply profile " <> (raw <> (": " <> error_text f e)))) g s

  profile_parsed : String → Result PowerProfile PowerError → Progress S → Progress S
  profile_parsed raw (ok p) g = profile_result raw p (backend.apply p g.machine) g
  profile_parsed raw (err e) g =
      say false (eprint ("invalid profile '" <> (raw <> ("': " <> error_text f e)))) g g.machine

  profile_part : Option String → Progress S → Progress S
  profile_part none g = g
  profile_part (some raw) g = profile_parsed raw (from_str raw) g

  turbo_result : String → Result (Unit {0}) PowerError × S → Progress S → Progress S
  turbo_result raw (ok _, s) g = say true (out ("applied turbo: " <> raw)) g s
  turbo_result raw (err e, s) g =
      say false (eprint ("failed to apply turbo: " <> error_text f e)) g s

  turbo_part : Option String → Progress S → Progress S
  turbo_part none g = g
  turbo_part (some raw) g =
      if str_eq raw "enabled" || str_eq raw "disabled"
      then turbo_result raw (backend.set_turbo (str_eq raw "enabled") g.machine) g
      else say false
          (eprint ("invalid turbo value '" <> (raw <> "': expected 'enabled' or 'disabled'"))) g
          g.machine

  -- The body of `apply` behind its first check, with the backend detected.
  unfoldable pub apply_parts : Option String → Option String → S → Progress S
  unfolding profile_part profile_parsed profile_result turbo_part turbo_result
  apply_parts profile turbo s =
      turbo_part turbo (profile_part profile (record { good = true; lines = []; machine = s }))

  abbrev exit_code : Progress S → Outcome S
  exit_code g = (if g.good then success else failure, g.lines, g.machine)

  read_lines : Result (Option PowerProfile) PowerError × S → Outcome S
  read_lines (ok (some p), s) = (
    success,
    out ("backend: " <> kind_text backend.kind) ∷ out ("profile: " <> as_kernel_str p) ∷ [],
    s,
  )
  read_lines (ok none, s) = (
    success,
    out ("backend: " <> kind_text backend.kind)
        ∷ out "profile: <not determinable on this backend>"
        ∷ [],
    s,
  )
  read_lines (err e, s) = (
    failure,
    out ("backend: " <> kind_text backend.kind)
        ∷ eprint ("error reading current profile: " <> error_text f e)
        ∷ [],
    s,
  )

  probe_lines : Result (Option PowerProfile) PowerError × S → List Line × S
  probe_lines (ok (some p), s) = (out ("current profile: " <> as_kernel_str p) ∷ [], s)
  probe_lines (ok none, s) = (out "current profile: <not determinable on this backend>" ∷ [], s)
  probe_lines (err e, s) =
      (out ("current profile: error reading it (" <> (error_text f e <> ")")) ∷ [], s)

module _ (f : Format) (sysfs : SysfsIo) where
  unfoldable pub probe : sysfs.State → Outcome (Host sysfs)
  unfolding topology_lines policy_lines policy_line probe_lines
  probe s = elim (discover_policies sysfs s) [
    | err e ↦ (
      failure,
      eprint ("error discovering cpufreq policies: " <> error_text f e) ∷ [],
      fresh sysfs s,
    )
    | ok policies ↦
        let backend = methods sysfs (detect_backend sysfs s) in
        let (lines, h) = probe_lines f backend (backend.current (fresh sysfs s)) in
        (
          success,
          topology_lines policies
              ++ (out ""
                  ∷ out (
                      "detected backend: "
                      <> (kind_text backend.kind
                          <> (" (supported=" <> (bool_text backend.is_supported <> ")"))))
                  ∷ lines),
          h,
        )
  ]

  unfoldable pub apply : Option String → Option String → sysfs.State → Outcome (Host sysfs)
  apply none none s =
      (failure, eprint "nothing to do: pass --profile and/or --turbo" ∷ [], fresh sysfs s)
  apply (some p) turbo s =
      exit_code f (methods sysfs (detect_backend sysfs s))
        (apply_parts f (methods sysfs (detect_backend sysfs s)) (some p) turbo (fresh sysfs s))
  apply none (some t) s =
      exit_code f (methods sysfs (detect_backend sysfs s))
        (apply_parts f (methods sysfs (detect_backend sysfs s)) none (some t) (fresh sysfs s))

  unfoldable pub read : sysfs.State → Outcome (Host sysfs)
  unfolding read_lines
  read s =
      let backend = methods sysfs (detect_backend sysfs s) in
      read_lines f backend (backend.current (fresh sysfs s))

  -- `main`, behind the parser of the arguments.
  unfoldable pub main : Command → sysfs.State → Outcome (Host sysfs)
  main probe_command s = probe s
  main (apply_command profile turbo) s = apply profile turbo s
  main read_command s = read s
