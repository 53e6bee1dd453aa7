-- ===== src/Ingress/Remembered.antt =====
-- harnessIngressQueue.ts, `rememberReportId`: the ids that are remembered, and their eviction.
use wosm.Base.{
  suc, ◌+◌, ◌≤◌, ◌≡◌, refl, String, false, true, List, [], ◌∷◌, ◌++◌, arith, length, length-append,
  ltb, if◌then◌else◌, contains, contains-append, IsDistinct, string_eq, ==-refl,
}
use wosm.Ingress.{State, max_remembered_report_ids, trim_seen, remember_report_id}

-- The last `max_remembered_report_ids` of a list that is at most one longer.
abbrev pub recent : List String → List String
recent [] = []
recent (old ∷ order) =
    if ltb max_remembered_report_ids (suc (length order)) then order else old ∷ order

trim_seen_fits :
    (order seen : List String)
    → length order ≤ max_remembered_report_ids
    → trim_seen order seen ≡ (order, seen)
unfolding trim_seen
trim_seen_fits [] seen h = refl
trim_seen_fits (old ∷ order) seen h = ground arith

trim_seen-recent :
    (order : List String)
    → length order ≤ max_remembered_report_ids + 1
    → trim_seen order order ≡ (recent order, recent order)
unfolding trim_seen
trim_seen-recent [] h = refl
trim_seen-recent (old ∷ order) h = ground (arith, ==-refl old, trim_seen_fits order order)

-- The set of ids stays the list of their order, and the list stays within the bound.
pub remember_lem :
    (s : State) (id : String)
    → s.seen_report_ids ≡ s.seen_report_id_order
    → length s.seen_report_id_order ≤ max_remembered_report_ids
    → contains s.seen_report_id_order id ≡ false
    → remember_report_id s id
      ≡ (recent (s.seen_report_id_order ++ id ∷ []), recent (s.seen_report_id_order ++ id ∷ []))
unfolding remember_report_id
remember_lem s id same bound new = ground (
  arith,
  trim_seen-recent (s.seen_report_id_order ++ id ∷ []),
  length-append s.seen_report_id_order (id ∷ []),
)

pub length-recent :
    (order : List String)
    → length order ≤ max_remembered_report_ids + 1
    → length (recent order) ≤ max_remembered_report_ids
length-recent [] h = omega arith
length-recent (old ∷ order) h = ground arith

pub recent-IsDistinct : (order : List String) → IsDistinct order → IsDistinct (recent order)
recent-IsDistinct [] d = d
recent-IsDistinct (old ∷ order) d = ground arith

-- The id that was added last is there.
pub contains-recent :
    (order : List String) (id : String) → contains (recent (order ++ id ∷ [])) id ≡ true
contains-recent [] id = ground (arith, ==-refl id)
contains-recent (old ∷ order) id = ground (arith, contains-append order (id ∷ []) id, ==-refl id)
