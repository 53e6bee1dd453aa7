-- ===== src/Forms/Wizard.antt =====
-- packages/dashboard-core/src/flows/stepWizard.ts: a form of several steps that remembers the way to
-- the step that it shows. The fields of a form besides these two are its `rest`.
use wosm.Base.{List, [], ◌∷◌, ◌++◌, Option, none, some}

pub record StepWizardState {ℓ κ} (Step : Type ℓ) (Rest : Type κ) : Type (ℓ ⊔ κ) where
  pub mode : Step
  pub step_history : List Step
  pub rest : Rest

module _ {ℓ} {A : Type ℓ} where
  -- `xs.at(-1)` and `xs.slice(0, -1)`.
  abbrev pub at_last : List A → Option A
  at_last [] = none
  at_last (x ∷ []) = some x
  at_last (x ∷ y ∷ ys) = at_last (y ∷ ys)

  abbrev pub without_last : List A → List A
  without_last [] = []
  without_last (x ∷ []) = []
  without_last (x ∷ y ∷ ys) = x ∷ without_last (y ∷ ys)

module _ {ℓ κ} {Step : Type ℓ} {Rest : Type κ} where
  unfoldable pub create_step_wizard_state : Step → Rest → StepWizardState Step Rest
  create_step_wizard_state mode rest = record { mode = mode; step_history = []; rest = rest }

  unfoldable pub enter_wizard_step : StepWizardState Step Rest → Step → StepWizardState Step Rest
  enter_wizard_step s mode = record s { mode = mode; step_history = s.step_history ++ s.mode ∷ [] }

  unfoldable pub reset_wizard_step : StepWizardState Step Rest → Step → StepWizardState Step Rest
  reset_wizard_step s mode = record s { mode = mode; step_history = [] }

  unfoldable pub back_wizard_step : StepWizardState Step Rest → Option (StepWizardState Step Rest)
  back_wizard_step s = elim (at_last s.step_history) [
    | none ↦ none
    | some previous ↦
        some (record s { mode = previous; step_history = without_last s.step_history })
  ]

  abbrev enter_all : StepWizardState Step Rest → List Step → StepWizardState Step Rest
  enter_all s [] = s
  enter_all s (mode ∷ modes) = enter_all (enter_wizard_step s mode) modes
