-- ===== src/Commands/CleanUp.antt =====
-- queue.ts: the cleanup behind an execution, and the chains.
use wosm.Base.{
  ℕ, ◌≡◌, String, true, none, some, arith, ◌&&◌, erase-IsDistinct, string_eq, nat_eq, option_eq,
  eq_iff, ltb, ◌==◌, Bool-cases, inl, inr, if◌then◌else◌,
}
use wosm.Base.Dict.{keys, get, get-delete, keys-delete}
use wosm.Commands.{Queue, clean_up_command}
use wosm.Commands.Chains.{scope_of, settled_at, Settled, Behind, Inv, Keeps, Behind-mono}

pub last_of :
    (q : Queue) (s : String) (j : ℕ)
    → Inv q
    → get q.scope_chains s ≡ some j
    → Behind q s q.next (some j)
last_of q s j v h = ground (arith, h, v.chained s)

-- A chain whose last execution is settled has none to wait for.
chain-Settled :
    (q : Queue) (s : String) (j : ℕ)
    → Inv q
    → get q.scope_chains s ≡ some j
    → settled_at q j ≡ true
    → Settled q s 0 q.next
chain-Settled q s j v h done i low below same =
    let last = last_of q s j v h in ground (arith, last.0, last.1, last.2 i, v.ordered i j)

clean_up-Keeps : (q : Queue) (j : ℕ) → Keeps q (clean_up_command q j)
unfolding clean_up_command
clean_up-Keeps q j = record {
  same_next = ground arith;
  same_scope = λ i. ground arith;
  same_previous = λ i. ground arith;
  settles = λ i. ground arith;
}

chains-clean_up :
    (q : Queue) (j : ℕ)
    → Inv q
    → (s : String)
    → get (clean_up_command q j).scope_chains s ≡ (
        if ltb j q.next && (settled_at q j && get q.scope_chains s == some j)
        then none
        else get q.scope_chains s)
unfolding clean_up_command
chains-clean_up q j v s = ground (
  arith,
  v.chained s,
  v.distinct,
  get-delete q.scope_chains (scope_of q j) s,
  eq_iff (scope_of q j) s,
)

clean_up_chained :
    (q : Queue) (j : ℕ)
    → Inv q
    → (s : String)
    → Behind (clean_up_command q j) s q.next (get (clean_up_command q j).scope_chains s)
clean_up_chained q j v s =
    elim (Bool-cases (ltb j q.next && (settled_at q j && get q.scope_chains s == some j))) [
      | inl gone ↦ ground (
        arith,
        chains-clean_up q j v s,
        Behind-mono q (clean_up_command q j) (clean_up-Keeps q j) s q.next none,
        chain-Settled q s j v,
      )
      | inr kept ↦ ground (
        arith,
        chains-clean_up q j v s,
        Behind-mono q (clean_up_command q j) (clean_up-Keeps q j) s q.next (get q.scope_chains s),
        v.chained s,
      )
    ]

pub clean_up-Inv : (q : Queue) (j : ℕ) → Inv q → Inv (clean_up_command q j)
unfolding clean_up_command
clean_up-Inv q j v =
    let r = clean_up_command q j in
    let a = clean_up-Keeps q j in
    record {
      distinct = ground (
        arith,
        v.distinct,
        keys-delete q.scope_chains (scope_of q j),
        erase-IsDistinct (keys q.scope_chains) (scope_of q j),
      );
      linked = λ i below. ground (
        arith,
        a.same_next,
        a.same_scope i,
        a.same_previous i,
        v.linked i,
        Behind-mono q r a (scope_of q i) i (q.entry i).previous,
      );
      chained = λ s. ground (arith, a.same_next, clean_up_chained q j v s);
      uncleaned = λ s k h. ground (arith, chains-clean_up q j v s, v.uncleaned s k);
      ordered = λ i k less below same begun. ground (arith, v.ordered i k);
    }
