-- ===== src/Client/Identity.antt =====
-- snapshotReducer.ts: what one event does to the rows and sessions that a client sees.
use wosm.Base.{
  String, Bool, false, List, [], ◌∷◌, ◌++◌, map, Option, none, some, filter, find, any, ◌==◌, ◌≡◌,
  refl, arith, contains, IsDistinct, append-IsDistinct, string_eq, if◌then◌else◌, eq_iff,
  Bool-cases, inl, inr, sym, ◌∙◌,
}
use wosm.Contracts.Snapshot.{WorktreeAgent, WorktreeRow, SessionView, WosmSnapshot}
use wosm.Contracts.Events
use wosm.Contracts.Events.{RowPatch, SessionPatch, WosmEvent}
use wosm.Client.Reducer.{
  apply_wosm_event, upsert_session, merge_row_patch, merge_session_patch, patch_row, patch_session,
  row_patch_for_agent_state,
}

abbrev pub session_of : List SessionView → String → Option SessionView
session_of sessions id = find (λ session. session.id == id) sessions

find-replace :
    (ss : List SessionView) (s : SessionView) (k : String)
    → session_of (map (λ c. if c.id == s.id then s else c) ss) k ≡ (
        if s.id == k
        then (if any (λ c. c.id == s.id) ss then some s else none)
        else session_of ss k)
find-replace [] s k = ground (arith, eq_iff s.id k)
find-replace (c ∷ ss) s k =
    ground (arith, find-replace ss s k, eq_iff c.id s.id, eq_iff c.id k, eq_iff s.id k)

find-append :
    (ss : List SessionView) (s : SessionView) (k : String)
    → session_of (ss ++ s ∷ []) k
      ≡ (if any (λ c. c.id == k) ss then session_of ss k else (if s.id == k then some s else none))
find-append [] s k = refl
find-append (c ∷ ss) s k = ground (arith, find-append ss s k)

any-find :
    (ss : List SessionView) (k : String) → any (λ c. c.id == k) ss ≡ false → session_of ss k ≡ none
any-find [] k h = refl
any-find (c ∷ ss) k h = ground (arith, any-find ss k)

-- After `session.created` a lookup of that session's id finds it as the event has it, whether it was
-- known or not, and every other id finds what it found before.
pub created-session_of :
    (snapshot : WosmSnapshot) (s : SessionView) (k : String)
    → session_of (apply_wosm_event snapshot (Events.session_created s)).snapshot.sessions k
      ≡ (if s.id == k then some s else session_of snapshot.sessions k)
unfolding apply_wosm_event upsert_session
created-session_of snapshot s k = ground (
  arith,
  find-replace snapshot.sessions s k,
  find-append snapshot.sessions s k,
  any-find snapshot.sessions k,
  eq_iff s.id k,
)

-- Lists of ids under the list operations of the reducer.
module _ {ℓ} {A : Type ℓ} (id_of : A → String) where
  abbrev pub ids : List A → List String
  ids xs = map id_of xs

  contains-filter :
      (p : A → Bool) (xs : List A) (k : String)
      → contains (ids xs) k ≡ false
      → contains (ids (filter p xs)) k ≡ false
  contains-filter p [] k h = refl
  contains-filter p (x ∷ xs) k h = ground (arith, contains-filter p xs k)

  filter-IsDistinct :
      (p : A → Bool) (xs : List A) → IsDistinct (ids xs) → IsDistinct (ids (filter p xs))
  filter-IsDistinct p [] d = tt
  filter-IsDistinct p (x ∷ xs) d =
      ground (arith, filter-IsDistinct p xs d.1, contains-filter p xs (id_of x) d.0)

  ids-map : (f : A → A) (xs : List A) → ((x : A) → id_of (f x) ≡ id_of x) → ids (map f xs) ≡ ids xs
  ids-map f [] h = refl
  ids-map f (x ∷ xs) h = cc (h x, ids-map f xs h)

  ids-snoc : (xs : List A) (x : A) → ids (xs ++ x ∷ []) ≡ ids xs ++ id_of x ∷ []
  ids-snoc [] x = refl
  ids-snoc (y ∷ xs) x = ground (arith, ids-snoc xs x)

  snoc-IsDistinct :
      (xs : List A) (x : A)
      → contains (ids xs) (id_of x) ≡ false
      → IsDistinct (ids xs)
      → IsDistinct (ids (xs ++ x ∷ []))
  snoc-IsDistinct xs x h d = rw (ids-snoc xs x) (append-IsDistinct (ids xs) (id_of x) h d)

-- Every row, and every session, has an id of its own.
pub record HasDistinctIds (s : WosmSnapshot) : Type 0 where
  pub rows : IsDistinct (ids (λ row. row.id) s.rows)
  pub sessions : IsDistinct (ids (λ session. session.id) s.sessions)

-- What an event from the observer must respect: a row that is added is new, and a patch renames
-- nothing.
abbrev pub Respects : WosmSnapshot → WosmEvent → Type 0
Respects s (Events.worktree_added row) = contains (ids (λ r. r.id) s.rows) row.id ≡ false
Respects s (Events.worktree_updated id patch) = patch.id ≡ none
Respects s (Events.session_updated id patch) = patch.id ≡ none
Respects s _ = Unit

patch_row-id :
    (id : String) (patch : RowPatch) (row : WorktreeRow)
    → patch.id ≡ none
    → (patch_row id patch row).id ≡ row.id
unfolding merge_row_patch
patch_row-id id patch row h = ground arith

patch_session-id :
    (id : String) (patch : SessionPatch) (session : SessionView)
    → patch.id ≡ none
    → (patch_session id patch session).id ≡ session.id
unfolding merge_session_patch
patch_session-id id patch session h = ground arith

agent_patch-id : (a : Option WorktreeAgent) → (row_patch_for_agent_state a).id ≡ none
unfolding row_patch_for_agent_state
agent_patch-id none = refl
agent_patch-id (some a) = refl

any-contains :
    (ss : List SessionView) (k : String) → any (λ c. c.id == k) ss ≡ contains (ids (λ s. s.id) ss) k
any-contains [] k = refl
any-contains (c ∷ ss) k = ground (arith, any-contains ss k)

replace-id : (s c : SessionView) → (if c.id == s.id then s else c).id ≡ c.id
replace-id s c = ground (arith, eq_iff c.id s.id)

upsert-IsDistinct :
    (ss : List SessionView) (s : SessionView)
    → IsDistinct (ids (λ c. c.id) ss)
    → IsDistinct (ids (λ c. c.id) (upsert_session ss s))
unfolding upsert_session
upsert-IsDistinct ss s d = elim (Bool-cases (any (λ c. c.id == s.id) ss)) [
  | inl old ↦ rw (old, ids-map (λ c. c.id) (λ c. if c.id == s.id then s else c) ss (replace-id s)) d
  | inr new ↦ rw new (snoc-IsDistinct (λ c. c.id) ss s (sym (any-contains ss s.id) ∙ new) d)
]

-- Each event that respects the ids keeps every row's and every session's id distinct.
pub apply-HasDistinctIds :
    (s : WosmSnapshot) (e : WosmEvent)
    → Respects s e
    → HasDistinctIds s
    → HasDistinctIds (apply_wosm_event s e).snapshot
unfolding apply_wosm_event
apply-HasDistinctIds s (Events.worktree_added row) ok d = record {
  rows = snoc-IsDistinct (λ r. r.id) s.rows row ok d.rows;
  sessions = d.sessions;
}
apply-HasDistinctIds s (Events.worktree_updated id patch) ok d = record {
  rows =
      rw (ids-map (λ r. r.id) (patch_row id patch) s.rows (λ r. patch_row-id id patch r ok)) d.rows;
  sessions = d.sessions;
}
apply-HasDistinctIds s (Events.worktree_removed id) ok d = record {
  rows = filter-IsDistinct (λ r. r.id) _ s.rows d.rows;
  sessions = filter-IsDistinct (λ r. r.id) _ s.sessions d.sessions;
}
apply-HasDistinctIds s (Events.worktree_agent_state_changed change) ok d = record {
  rows =
      rw
        (ids-map (λ r. r.id) (patch_row change.worktree_id (row_patch_for_agent_state change.agent))
          s.rows (λ r. patch_row-id change.worktree_id _ r (agent_patch-id change.agent)))
        d.rows;
  sessions = d.sessions;
}
apply-HasDistinctIds s (Events.session_created session) ok d = record {
  rows = d.rows;
  sessions = upsert-IsDistinct s.sessions session d.sessions;
}
apply-HasDistinctIds s (Events.session_updated id patch) ok d = record {
  rows = d.rows;
  sessions =
      rw
        (ids-map (λ r. r.id) (patch_session id patch) s.sessions
          (λ r. patch_session-id id patch r ok))
        d.sessions;
}
apply-HasDistinctIds s (Events.session_removed id) ok d = record {
  rows = d.rows;
  sessions = filter-IsDistinct (λ r. r.id) _ s.sessions d.sessions;
}
apply-HasDistinctIds s (Events.provider_health_changed provider health) ok d = record {
  rows = d.rows;
  sessions = d.sessions;
}
apply-HasDistinctIds s _ ok d = d
