-- ===== src/Nav/Chats/Cycle.antt =====
-- internal/ui/nav.go: the tabs are a ring, the assistant's tab is its mode, and archiving is one
-- request at a time.
use beeper_tui.Base.{
  ℕ, sym, if◌then◌else◌, ◌≡◌, refl, ap, ◌∙◌, false, Bool-cases, inl, inr, List, [], ◌∷◌,
  Option-cases, arith, not, ◌&&◌,
}
use beeper_tui.Platform.{Platform}
use beeper_tui.Tab.{Tab, inbox, unread, mentions, pinned, low_priority, archive, chat_tab}
use beeper_tui.Model.{Model, Mode, is_chat, list}
use beeper_tui.Nav.Cursor.{Dir, up, down, select_first}
use beeper_tui.Nav.Window.{visible_chat_indexes}
use beeper_tui.Nav.Frame.{mode-clamp_window, tab-clamp_window}
use beeper_tui.Nav.Chats.{next_tab, cycle_tab, enter_chat_tab}

abbrev pub opposite : Dir → Dir
opposite up = down
opposite down = up

-- One step on the bar of tabs and one step back lead to the same tab, the ends of the bar included.
pub next_tab_back : (dir : Dir) (t : Tab) → next_tab (opposite dir) (next_tab dir t) ≡ t
unfolding next_tab
next_tab_back up inbox = refl
next_tab_back up unread = refl
next_tab_back up mentions = refl
next_tab_back up pinned = refl
next_tab_back up low_priority = refl
next_tab_back up archive = refl
next_tab_back up Tab.chat = refl
next_tab_back down inbox = refl
next_tab_back down unread = refl
next_tab_back down mentions = refl
next_tab_back down pinned = refl
next_tab_back down low_priority = refl
next_tab_back down archive = refl
next_tab_back down Tab.chat = refl

-- The mode is the assistant's exactly when its tab is shown.
abbrev pub IsInStep : Model → Type 0
IsInStep m = is_chat m.mode ≡ chat_tab m.tab

not_chat : (mode : Mode) → is_chat (if is_chat mode then list else mode) ≡ false
not_chat mode = ground arith

enter_keeps :
    (m : Model) → ((enter_chat_tab m).0.mode ≡ Mode.chat) × ((enter_chat_tab m).0.tab ≡ m.tab)
unfolding enter_chat_tab
enter_keeps m = elim (Option-cases m.llm) [
  | inl missing ↦ rw missing (refl, refl)
  | inr (llm, there) ↦ rw there (elim (Bool-cases (not m.chat_checked && not m.chat_detecting)) [
    | inl ask ↦ rw ask (refl, refl)
    | inr ready ↦ rw ready (refl, refl)
  ])
]

module _ ⦃platform : Platform⦄ where
  -- Where `select_first` leaves the mode and the tab.
  select_first_keeps :
      (xs : List ℕ) (m : Model)
      → ((select_first xs m).mode ≡ m.mode) × ((select_first xs m).tab ≡ m.tab)
  select_first_keeps [] m = (refl, refl)
  select_first_keeps (x ∷ xs) m = (refl, refl)

  -- Changing the tab leaves the mode the assistant's exactly when the new tab is the assistant's.
  pub cycle_tab-IsInStep : (dir : Dir) (m : Model) → IsInStep (cycle_tab dir m).0
  unfolding cycle_tab
  cycle_tab-IsInStep dir m =
      let m' = record m { tab = next_tab dir m.tab } in
      let m'' = record m' { mode = if is_chat m.mode then list else m.mode; offset = 0 } in
      let first = select_first (visible_chat_indexes m'') m'' in
      let (mode, tab) = select_first_keeps (visible_chat_indexes m'') m'' in
      elim (Bool-cases (chat_tab (next_tab dir m.tab))) [
        | inl enter ↦
            let (e, k) = enter_keeps m' in rw enter (ap is_chat e ∙ sym (ap chat_tab k ∙ enter))
        | inr leave ↦ rw leave (
            ap is_chat (mode-clamp_window first ∙ mode)
            ∙ not_chat m.mode
            ∙ sym (ap chat_tab (tab-clamp_window first ∙ tab) ∙ leave))
      ]
