-- ===== src/Forms/Choices.antt =====
-- packages/dashboard-core/src/selectors/selectors.ts, first part: the keys of a choice, and what a new
-- session can be made of. The error of `keyChoices` for an index without a key is left out: the slice
-- before it leaves no more values than there are keys.
pub mod Keys
use Prim.Native.Nat.{Ordering}
use wosm.Base.{
  ℕ, suc, String, Bool, true, false, ◌&&◌, ◌||◌, not, List, [], ◌∷◌, map, Option, none, some,
  length, take, filter, find, any, flatten, contains, add, get_elem?, ◌==◌, string_eq,
  if◌then◌else◌,
}
use wosm.Base.Sort.{or_compare, sort}
use wosm.Base.Dict.{get}
use wosm.Base.Platform.{Platform, TextMethods}
use wosm.Contracts.Snapshot.{
  ProviderHealth, ProviderHealthStatus, unavailable, unknown_health, ProjectView, WorktreeRow,
  SessionView, SnapshotHarness, WosmSnapshot, DisplayStatusLabel, no_agent_label, starting_label,
  idle_label, working_label, needs_attention_label, stuck_label, exited_label, unknown_label,
}

abbrev pub selection_keys : List String
selection_keys =
    "1" ∷ "2" ∷ "3" ∷ "4" ∷ "5" ∷ "6" ∷ "7" ∷ "8" ∷ "9" ∷ "a" ∷ "b" ∷ "c" ∷ "d" ∷ "e" ∷ "f" ∷ "g"
    ∷ "h" ∷ "i" ∷ "j" ∷ "k" ∷ "l" ∷ "m" ∷ "n" ∷ "o" ∷ "p" ∷ "q" ∷ "r" ∷ "s" ∷ "t" ∷ "u" ∷ "v" ∷ "w"
    ∷ "x" ∷ "y" ∷ "z" ∷ []

pub record KeyedChoice {ℓ} (T : Type ℓ) : Type ℓ where
  pub key : String
  pub value : T

pub record NewSessionHarnessOption : Type 0 where
  pub id : String
  pub label : String
  pub status : ProviderHealthStatus
  pub create_blocked : Bool
  pub health : Option ProviderHealth

module _ {ℓ} {T : Type ℓ} where
  -- `values.map((value, index) => ({ key: SELECTION_KEYS[index], value }))`.
  abbrev pub with_keys : List String → List T → List (KeyedChoice T)
  with_keys [] values = []
  with_keys (key ∷ keys) [] = []
  with_keys (key ∷ keys) (value ∷ values) =
      record { key = key; value = value } ∷ with_keys keys values

  unfoldable pub key_choices : List T → List (KeyedChoice T)
  key_choices values = with_keys selection_keys (take (length selection_keys) values)

  unfoldable pub choice_value_by_key : List (KeyedChoice T) → String → Option T
  choice_value_by_key choices input = elim (find (λ choice. choice.key == input) choices) [
    | none ↦ none
    | some choice ↦ some choice.value
  ]

unfoldable pub is_selection_key : String → Bool
is_selection_key input = contains selection_keys input

unfoldable pub select_new_session_project : WosmSnapshot → String → Option ProjectView
select_new_session_project snapshot selected_project_id =
    elim (find (λ project. project.id == selected_project_id) snapshot.projects) [
      | some project ↦ some project
      | none ↦ get_elem? snapshot.projects 0
    ]

unfoldable pub select_new_session_project_choices : WosmSnapshot → List (KeyedChoice ProjectView)
unfolding key_choices
select_new_session_project_choices snapshot = key_choices snapshot.projects

-- `Object.values(snapshot.providerHealth)` where the snapshot names no harnesses.
unfoldable pub configured_harnesses : WosmSnapshot → List SnapshotHarness
configured_harnesses snapshot = elim (snapshot.harnesses) [
  | some harnesses ↦ harnesses
  | none ↦
      map (λ health. record { id = health.provider_id; label = health.provider_id })
        (filter (λ health. health.provider_type == "harness")
          (map (λ entry. entry.1) snapshot.provider_health))
]

-- `labels.get(id)`: of harnesses with one id, the `Map` holds the last one's label.
abbrev pub last_label : String → List SnapshotHarness → Option String
last_label id [] = none
last_label id (harness ∷ harnesses) =
    let later = last_label id harnesses in
    elim later [ some l ↦ some l | none ↦ if harness.id == id then some harness.label else none ]

abbrev pub is_unavailable : ProviderHealthStatus → Bool
is_unavailable unavailable = true
is_unavailable _ = false

abbrev pub health_status : Option ProviderHealth → ProviderHealthStatus
health_status none = unknown_health
health_status (some health) = health.status

abbrev pub harness_option : WosmSnapshot → List SnapshotHarness → String → NewSessionHarnessOption
harness_option snapshot configured id =
    let health = get snapshot.provider_health id in
    let status = health_status health in
    record {
      id = id;
      label = elim (last_label id configured) [ none ↦ id | some label ↦ label ];
      status = status;
      create_blocked = is_unavailable status;
      health = health;
    }

-- The loop over the ids, which passes over one that it has seen.
abbrev pub unseen : List String → List SnapshotHarness → List String
unseen seen [] = []
unseen seen (harness ∷ harnesses) = elim (contains seen harness.id) [
  | true ↦ unseen seen harnesses
  | false ↦ harness.id ∷ unseen (add seen harness.id) harnesses
]

unfoldable pub select_new_session_harness_options : WosmSnapshot → List NewSessionHarnessOption
unfolding configured_harnesses
select_new_session_harness_options snapshot =
    let configured = configured_harnesses snapshot in
    map (harness_option snapshot configured) (unseen [] configured)

unfoldable pub select_new_session_harness_choices :
    WosmSnapshot → List (KeyedChoice NewSessionHarnessOption)
unfolding select_new_session_harness_options key_choices
select_new_session_harness_choices snapshot =
    key_choices (select_new_session_harness_options snapshot)
