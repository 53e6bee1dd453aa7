-- ===== src/Commands/Chains.antt =====
-- queue.ts: what the chains of promises know.
use wosm.Base.{
  ℕ, suc, ◌≤◌, ◌<◌, ◌≡◌, sym, ◌∙◌, String, Bool, true, false, Option, none, some, arith, IsDistinct,
  add-IsDistinct, string_eq, nat_eq, option_eq, eq_iff, nat_beq, ◌==◌, Bool-cases, Option-cases,
  inl, inr,
}
use wosm.Base.Dict.{keys, get, set, delete, get-set, keys-set}
use wosm.Contracts.Commands.{WosmCommand}
use wosm.Commands.{
  Queue, is_queued, is_settled, chain_command, chained_entry, command_scope, update,
}

abbrev pub scope_of : Queue → ℕ → String
scope_of q i = (q.entry i).scope

abbrev pub settled_at : Queue → ℕ → Bool
settled_at q i = is_settled (q.entry i).phase

abbrev pub queued_at : Queue → ℕ → Bool
queued_at q i = is_queued (q.entry i).phase

-- The executions of the scope from `low` up to `high` are settled.
abbrev pub Settled : Queue → String → ℕ → ℕ → Type 0
Settled q s low high = (i : ℕ) → low ≤ i → i < high → scope_of q i ≡ s → settled_at q i ≡ true

-- The promise to wait for is the scope's last that may be unsettled before `high`.
abbrev pub Behind : Queue → String → ℕ → Option ℕ → Type 0
Behind q s high none = Settled q s 0 high
Behind q s high (some k) = (k < high) × (scope_of q k ≡ s) × Settled q s (suc k) high

pub record Inv (q : Queue) : Type 0 where
  pub distinct : IsDistinct (keys q.scope_chains)
  pub linked : (j : ℕ) → j < q.next → Behind q (scope_of q j) j (q.entry j).previous
  pub chained : (s : String) → Behind q s q.next (get q.scope_chains s)
  pub uncleaned : (s : String) (k : ℕ) → get q.scope_chains s ≡ some k → (q.entry k).cleaned ≡ false
  pub ordered :
      (i j : ℕ)
      → i < j
      → j < q.next
      → scope_of q i ≡ scope_of q j
      → queued_at q j ≡ false
      → settled_at q i ≡ true

-- A step that settles more and moves nothing.
pub record Keeps (q r : Queue) : Type 0 where
  pub same_next : r.next ≡ q.next
  pub same_scope : (i : ℕ) → scope_of r i ≡ scope_of q i
  pub same_previous : (i : ℕ) → (r.entry i).previous ≡ (q.entry i).previous
  pub settles : (i : ℕ) → settled_at q i ≡ true → settled_at r i ≡ true

module _ (q r : Queue) (a : Keeps q r) where
  pub Behind-mono : (s : String) (high : ℕ) (o : Option ℕ) → Behind q s high o → Behind r s high o
  Behind-mono s high none b =
      λ i low below same. a.settles i (b i low below (sym (a.same_scope i) ∙ same))
  Behind-mono s high (some k) (below, same, rest) = (
    below,
    a.same_scope k ∙ same,
    λ i low up same. a.settles i (rest i low up (sym (a.same_scope i) ∙ same)),
  )

  pub advance-Inv :
      Inv q
      → r.scope_chains ≡ q.scope_chains
      → ((i : ℕ) → (r.entry i).cleaned ≡ (q.entry i).cleaned)
      → ((i j : ℕ)
          → i < j
          → j < q.next
          → scope_of q i ≡ scope_of q j
          → queued_at r j ≡ false
          → settled_at r i ≡ true)
      → Inv r
  advance-Inv v same_chains same_cleaned ordered = record {
    distinct = ground (arith, v.distinct, same_chains);
    linked = λ j below. ground (
      arith,
      a.same_next,
      a.same_scope j,
      a.same_previous j,
      Behind-mono (scope_of q j) j (q.entry j).previous,
      v.linked j,
    );
    chained = λ s.
        ground (
          arith,
          a.same_next,
          same_chains,
          Behind-mono s q.next (get q.scope_chains s),
          v.chained s,
        );
    uncleaned = λ s k h. ground (arith, same_chains, same_cleaned k, v.uncleaned s k);
    ordered = λ i j less below same begun.
        ordered i j less (ground (arith, a.same_next))
          (sym (a.same_scope i) ∙ same ∙ a.same_scope j) begun;
  }

-- The queue after a new execution has taken its place.
module _ (q : Queue) (id : String) (command : WosmCommand) where
  abbrev pub grown : Queue
  grown = record q {
    entry = update q.entry q.next (chained_entry q id command);
    next = suc q.next;
    scope_chains = set q.scope_chains (command_scope command) q.next;
    awaiting = delete q.awaiting id;
  }

  pub older : (i : ℕ) → i < q.next → grown.entry i ≡ q.entry i
  older i below = ground arith

  pub newest : grown.entry q.next ≡ chained_entry q id command
  newest = ground arith

  Behind-grown :
      (s : String) (high : ℕ) (o : Option ℕ)
      → high ≤ q.next
      → Behind q s high o
      → Behind grown s high o
  Behind-grown s high none within b = λ i low below same. ground (arith, older i, b i)
  Behind-grown s high (some k) within (below, same, rest) =
      (below, ground (arith, older k), λ i low up same'. ground (arith, older i, rest i))

  Behind-later :
      (s : String) (o : Option ℕ)
      → (command_scope command == s) ≡ false
      → Behind grown s q.next o
      → Behind grown s (suc q.next) o
  Behind-later s none miss b =
      λ i low below same. ground (arith, newest, b i, eq_iff (command_scope command) s)
  Behind-later s (some k) miss (below, same, rest) = (
    ground arith,
    same,
    λ i low up same'. ground (arith, newest, rest i, eq_iff (command_scope command) s),
  )

  newest_last : (s : String) → command_scope command ≡ s → Behind grown s (suc q.next) (some q.next)
  newest_last s h = (ground arith, ground (arith, newest), λ i low up same. ground arith)

  newest_linked : Inv q → Behind grown (scope_of grown q.next) q.next (grown.entry q.next).previous
  newest_linked v = ground (
    arith,
    newest,
    v.chained (command_scope command),
    Behind-grown (command_scope command) q.next (get q.scope_chains (command_scope command)),
  )

  newest_Behind : Inv q → (s : String) → Behind grown s (suc q.next) (get grown.scope_chains s)
  newest_Behind v s = elim (Bool-cases (command_scope command == s)) [
    | inl hit ↦ ground (
      arith,
      get-set q.scope_chains (command_scope command) s q.next,
      newest_last s,
      eq_iff (command_scope command) s,
    )
    | inr miss ↦ ground (
      arith,
      get-set q.scope_chains (command_scope command) s q.next,
      newest,
      Behind-later s (get q.scope_chains s),
      Behind-grown s q.next (get q.scope_chains s),
      v.chained s,
    )
  ]

  grown-Inv : Inv q → Inv grown
  grown-Inv v = record {
    distinct = ground (
      arith,
      keys-set q.scope_chains (command_scope command) q.next,
      add-IsDistinct (keys q.scope_chains) (command_scope command),
      v.distinct,
    );
    linked = λ j below. elim (Bool-cases (nat_beq j q.next)) [
      | inl last ↦ ground (arith, newest_linked v)
      | inr early ↦
          ground (arith, older j, v.linked j, Behind-grown (scope_of q j) j (q.entry j).previous)
    ];
    chained = newest_Behind v;
    uncleaned = λ s k h. ground (
      arith,
      get-set q.scope_chains (command_scope command) s q.next,
      newest,
      older k,
      v.chained s,
      v.uncleaned s k,
    );
    ordered = λ i j less below same begun. ground (arith, newest, older i, older j, v.ordered i j);
  }

pub chain-Inv : (q : Queue) (id : String) → Inv q → Inv (chain_command q id)
unfolding chain_command
chain-Inv q id v = elim (Option-cases (get q.awaiting id)) [
  | inl nothing ↦ ground (arith, nothing)
  | inr (command, h) ↦ ground (arith, h, grown-Inv q id command v)
]
