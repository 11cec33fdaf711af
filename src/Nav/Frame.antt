-- ===== src/Nav/Frame.antt =====
-- `clampWindow` touches the scroll positions and nothing else.
use beeper_tui.Base.{ℕ, ◌≡◌, refl, ap, eqb, length, Bool-cases, Option, none, some, inl, inr}
use beeper_tui.Platform.{Platform}
use beeper_tui.Model.{Model, Mode, list, conversation, insert, search, react, chat, chat_insert}
use beeper_tui.Nav.Window.{
  visible_chat_indexes, selected_visible_chat_pos, clamp_list, clamp_search, clamp_conversation,
  clamp_mode, clamp_window,
}

-- The state `m` with the scroll positions of `k`.
abbrev pub scrolled : Model → Model → Model
scrolled m k = record m {
  offset = k.offset;
  search_selected = k.search_selected;
  search_offset = k.search_offset;
  msg_selected = k.msg_selected;
  msg_offset = k.msg_offset;
}

list_frame : (row : Option ℕ) (m : Model) → clamp_list row m ≡ scrolled m (clamp_list row m)
list_frame none m = refl
list_frame (some row) m = refl

search_frame : (m : Model) → clamp_search m ≡ scrolled m (clamp_search m)
search_frame m = elim (Bool-cases (eqb (length m.search_results) 0)) [ inl e ↦ rw e | inr e ↦ rw e ]

conversation_frame : (m : Model) → clamp_conversation m ≡ scrolled m (clamp_conversation m)
conversation_frame m = elim (Bool-cases (eqb (length m.messages) 0)) [ inl e ↦ rw e | inr e ↦ rw e ]

module _ ⦃platform : Platform⦄ where
  frame_in : (mode : Mode) (m : Model) → clamp_mode mode m ≡ scrolled m (clamp_mode mode m)
  frame_in list m = list_frame (selected_visible_chat_pos m (visible_chat_indexes m)) m
  frame_in search m = search_frame m
  frame_in conversation m = conversation_frame m
  frame_in insert m = refl
  frame_in react m = refl
  frame_in chat m = refl
  frame_in chat_insert m = refl

  -- Clamping the window changes the scroll positions and cursors of the lists and nothing else.
  pub clamp_window-frame : (m : Model) → clamp_window m ≡ scrolled m (clamp_window m)
  unfolding clamp_window
  clamp_window-frame m = frame_in m.mode m

  pub chats-clamp_window : (m : Model) → (clamp_window m).chats ≡ m.chats
  chats-clamp_window m = ap (λ k. k.chats) (clamp_window-frame m)

  pub selected-clamp_window : (m : Model) → (clamp_window m).selected ≡ m.selected
  selected-clamp_window m = ap (λ k. k.selected) (clamp_window-frame m)

  pub mode-clamp_window : (m : Model) → (clamp_window m).mode ≡ m.mode
  mode-clamp_window m = ap (λ k. k.mode) (clamp_window-frame m)

  pub messages-clamp_window : (m : Model) → (clamp_window m).messages ≡ m.messages
  messages-clamp_window m = ap (λ k. k.messages) (clamp_window-frame m)

  pub tab-clamp_window : (m : Model) → (clamp_window m).tab ≡ m.tab
  tab-clamp_window m = ap (λ k. k.tab) (clamp_window-frame m)

  pub width-clamp_window : (m : Model) → (clamp_window m).width ≡ m.width
  width-clamp_window m = ap (λ k. k.width) (clamp_window-frame m)

  pub previews-clamp_window : (m : Model) → (clamp_window m).media_previews ≡ m.media_previews
  previews-clamp_window m = ap (λ k. k.media_previews) (clamp_window-frame m)
