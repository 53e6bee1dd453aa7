-- ===== src/Forms.antt =====
-- packages/dashboard-core/src/flows and components/EditableTextInput: the parts of the dashboard that
-- take a text or a choice from the user, without the dashboard around them.
pub mod TextInput
pub mod Choices
pub mod Wizard
pub mod NewSession
