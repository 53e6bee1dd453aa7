-- ===== src/Forms/NewSession/Validation.antt =====
-- packages/dashboard-core/src/flows/newSession.ts, `validateNewSessionCreate`.
use Prim.Native.String.{◌++◌ as append}
use wosm.Base.Text.{Text}
use wosm.Base.{
  not, String, Bool, true, false, Option, none, some, find, ◌==◌, string_eq, if◌then◌else◌, ◌≡◌,
  refl, arith, Bool-cases, Option-cases, inl, inr,
}
use wosm.Contracts.Status.{SafeError, safe_error}
use wosm.Contracts.Snapshot.{ProjectView, ProviderHealth, WosmSnapshot}
use wosm.Forms.Choices.{NewSessionHarnessOption, is_unavailable, select_new_session_harness_options}
use wosm.Forms.NewSession.{
  NewSessionFields, NewSessionCreateValidation, valid, invalid, selected_project,
}

abbrev pub project_not_configured : SafeError
project_not_configured =
    record (safe_error "CommandValidationError" "PROJECT_NOT_CONFIGURED"
      "No project is configured for a new session." none) {
        hint = some "Add a project to config.toml and run wosm reconcile.";
      }

abbrev pub provider_unavailable : String → String → String → SafeError
provider_unavailable code message provider =
    record (safe_error "ProviderUnavailableError" code message (some provider)) {
      hint = some "Run wosm doctor for provider diagnostics.";
    }

abbrev pub or_error : Option SafeError → SafeError → SafeError
or_error none other = other
or_error (some e) other = e

abbrev pub health_error : Option ProviderHealth → Option SafeError
health_error none = none
health_error (some health) = health.last_error

unfoldable pub refused_harness : NewSessionHarnessOption → SafeError
refused_harness option = or_error (health_error option.health) (
    provider_unavailable "HARNESS_PROVIDER_UNAVAILABLE"
      (append "The harness provider " (append option.id " is unavailable.")) option.id)

unfoldable pub refused_project : ProjectView → SafeError
refused_project project = or_error project.health.last_error (
    provider_unavailable "WORKTREE_PROVIDER_UNAVAILABLE" "The worktree provider is unavailable."
      project.health.provider_id)

abbrev pub chosen_option : WosmSnapshot → NewSessionFields → Option NewSessionHarnessOption
chosen_option snapshot f =
    find (λ option. option.id == f.selected_harness) (select_new_session_harness_options snapshot)

abbrev pub validate_harness :
    Option NewSessionHarnessOption → ProjectView → NewSessionFields → NewSessionCreateValidation
validate_harness none project f = valid project f.branch f.selected_harness
validate_harness (some option) project f =
    if is_unavailable option.status
    then invalid (refused_harness option)
    else valid project f.branch f.selected_harness

unfoldable pub validate_new_session_create :
    WosmSnapshot → NewSessionFields → NewSessionCreateValidation
unfolding refused_project
validate_new_session_create snapshot f = elim (selected_project snapshot f) [
  | none ↦ invalid project_not_configured
  | some project ↦
      if is_unavailable project.health.status
      then invalid (refused_project project)
      else validate_harness (chosen_option snapshot f) project f
]

abbrev pub is_ready : Option NewSessionHarnessOption → Bool
is_ready none = true
is_ready (some option) = not (is_unavailable option.status)

validate_harness_lem :
    (option : Option NewSessionHarnessOption) (project named : ProjectView) (f : NewSessionFields)
    (branch : Text) (harness : String)
    → validate_harness option project f ≡ valid named branch harness
    → (project ≡ named)
      × (branch ≡ f.branch)
      × (harness ≡ f.selected_harness)
      × (is_ready option ≡ true)
validate_harness_lem none project named f branch harness e = (cc e, cc e, cc e, refl)
validate_harness_lem (some option) project named f branch harness e =
    elim (Bool-cases (is_unavailable option.status)) [
      | inl down ↦ absurd (ground (arith, e, down))
      | inr up ↦ ground (arith, e, up)
    ]

-- A form that is valid creates its branch with its harness in the project that it shows, whose worktree
-- provider is not unavailable, and the harness is not either.
pub validated_lem :
    (snapshot : WosmSnapshot) (f : NewSessionFields) (project : ProjectView) (branch : Text)
    (harness : String)
    → validate_new_session_create snapshot f ≡ valid project branch harness
    → (selected_project snapshot f ≡ some project)
      × (is_unavailable project.health.status ≡ false)
      × (branch ≡ f.branch)
      × (harness ≡ f.selected_harness)
      × (is_ready (chosen_option snapshot f) ≡ true)
unfolding validate_new_session_create
validated_lem snapshot f project branch harness e =
    elim (Option-cases (selected_project snapshot f)) [
      | inl gone ↦ absurd (ground (arith, e, gone))
      | inr (shown, there) ↦ elim (Bool-cases (is_unavailable shown.health.status)) [
        | inl down ↦ absurd (ground (arith, e, there, down))
        | inr up ↦
            let rest =
              validate_harness_lem (chosen_option snapshot f) shown project f branch harness
                (ground (arith, e, there, up)) in
            ground (arith, rest, there, up)
      ]
    ]
