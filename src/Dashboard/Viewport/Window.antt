-- ===== src/Dashboard/Viewport/Window.antt =====
-- What the window shows of the lines, and what scrolling leaves.
use wosm.Base.{
  ℕ, zero, suc, ◌+◌, ◌≡◌, refl, List, [], ◌∷◌, ◌++◌, some, length, take, drop, min, length-take,
  length-drop, arith, ap, ◌∙◌, sym, nat_beq_iff,
}
use wosm.Base.Int.{ℤ, pos, ◌+ℤ◌}
use wosm.Base.Platform.{Platform, TextMethods}
use wosm.Contracts.Snapshot.{WosmSnapshot}
use wosm.Dashboard.{TuiState}
use wosm.Dashboard.Selectors.{select_project_groups, project_group, matching_rows}
use wosm.Dashboard.Items.{
  select_dashboard_items, group_items, visible_create_session_local_rows,
  merge_rows_and_create_session_local_rows, compare_dashboard_rows, row_title,
  local_row_matches_search, row_item,
}
use wosm.Dashboard.Viewport.{
  select_dashboard_viewport, dashboard_body_rows, clamp_dashboard_scroll_offset,
  clamped_scroll_offset_for_state, scroll_dashboard, clamp_dashboard_state_scroll,
}

module _ {ℓ} {A : Type ℓ} where
  split_at : (n : ℕ) (xs : List A) → take n xs ++ drop n xs ≡ xs
  split_at zero xs = refl
  split_at (suc n) [] = refl
  split_at (suc n) (x ∷ xs) = ap (x ∷◌) (split_at n xs)

-- The window lies in the lines, it is full where there are lines enough, and with the lines that are
-- counted above and below it there are as many as there are lines.
pub viewport_window :
    (p : Platform) (t : TextMethods) (snapshot : WosmSnapshot) (s : TuiState)
    → let v = select_dashboard_viewport p t snapshot s in
      (length v.visible_items ≡ min v.body_rows (length v.items))
      × (v.hidden_above + length v.visible_items + v.hidden_below ≡ length v.items)
      × (take v.hidden_above v.items
            ++ (v.visible_items ++ drop v.body_rows (drop v.hidden_above v.items))
          ≡ v.items)
unfolding select_dashboard_viewport clamp_dashboard_scroll_offset dashboard_body_rows
viewport_window p t snapshot s =
    let items = select_dashboard_items p t snapshot s in
    let v = select_dashboard_viewport p t snapshot s in
    let below = drop v.hidden_above items in
    (
      ground (arith, length-take v.body_rows below, length-drop v.hidden_above items),
      ground (arith, length-take v.body_rows below, length-drop v.hidden_above items),
      ap (λ rest. take v.hidden_above items ++ rest) (split_at v.body_rows below)
          ∙ split_at v.hidden_above items,
    )

clamp_idem :
    (body count : ℕ) (offset : ℤ)
    → clamp_dashboard_scroll_offset body count
        (pos (clamp_dashboard_scroll_offset body count offset))
      ≡ clamp_dashboard_scroll_offset body count offset
unfolding clamp_dashboard_scroll_offset
clamp_idem body count offset = omega arith

module _ (p : Platform) (t : TextMethods) (s : TuiState) where
  -- The lines do not depend on the offset.
  items_scrolled :
      (snapshot : WosmSnapshot) (n : ℕ)
      → select_dashboard_items p t snapshot (record s { scroll_offset = n })
        ≡ select_dashboard_items p t snapshot s
  unfolding select_dashboard_items group_items visible_create_session_local_rows
      merge_rows_and_create_session_local_rows compare_dashboard_rows row_title
      local_row_matches_search row_item select_project_groups project_group matching_rows
  items_scrolled snapshot n = refl

  offset_scrolled :
      (snapshot : WosmSnapshot) (n : ℕ) (z : ℤ)
      → s.snapshot ≡ some snapshot
      → clamped_scroll_offset_for_state p t (record s { scroll_offset = n }) z
        ≡ clamp_dashboard_scroll_offset
            (dashboard_body_rows s.terminal_rows)
            (length (select_dashboard_items p t snapshot s))
            z
  unfolding clamped_scroll_offset_for_state
  offset_scrolled snapshot n z h = rw (h, items_scrolled snapshot n) refl

-- After any scroll of a dashboard with a snapshot the offset is the one that the window takes: clamping
-- it again changes nothing, and the window starts at it.
pub scrolled_lem :
    (p : Platform) (t : TextMethods) (snapshot : WosmSnapshot) (s : TuiState) (delta : ℤ)
    → s.snapshot ≡ some snapshot
    → let after = scroll_dashboard p t s delta in
      (clamp_dashboard_state_scroll p t after ≡ after)
      × ((select_dashboard_viewport p t snapshot after).clamped_scroll_offset ≡ after.scroll_offset)
unfolding scroll_dashboard clamp_dashboard_state_scroll select_dashboard_viewport
scrolled_lem p t snapshot s delta h =
    let body = dashboard_body_rows s.terminal_rows in
    let count = length (select_dashboard_items p t snapshot s) in
    let n = clamped_scroll_offset_for_state p t s (pos s.scroll_offset +ℤ delta) in
    let asked = offset_scrolled p t s snapshot s.scroll_offset (pos s.scroll_offset +ℤ delta) h in
    let again : clamp_dashboard_scroll_offset body count (pos n) ≡ n =
      ap (λ m. clamp_dashboard_scroll_offset body count (pos m)) asked
      ∙ clamp_idem body count (pos s.scroll_offset +ℤ delta)
      ∙ sym asked in
    let kept : clamped_scroll_offset_for_state p t (record s { scroll_offset = n }) (pos n) ≡ n =
      offset_scrolled p t s snapshot n (pos n) h ∙ again in
    (rw ((nat_beq_iff _ n).1 kept) refl, rw (items_scrolled p t s snapshot n) again)
