-- ===== src/Poll.antt =====
-- internal/ui/poll.go: the background refresh and its merge with messages not yet echoed.
pub mod Merge
use beeper_tui.Base.{
  ℕ, ◌+◌, Bool, true, false, not, ◌&&◌, ◌||◌, String, ◌==◌, List, [], ◌∷◌, ◌++◌, if◌then◌else◌, ltb,
  eqb, any, has_prefix, delete,
}
use beeper_tui.Platform.{Platform}
use beeper_tui.Api.{Message}
use beeper_tui.Model.{
  Model, FailedSend, Cmd, poll_tick, refresh_chats, load_contacts, refresh_messages,
}
use beeper_tui.Sorting.{same_bool}
use beeper_tui.Nav.Window.{max_msg_offset, clamp_window}
use beeper_tui.Nav.Cursor.{last_message}
use beeper_tui.Events.{is_open, is_at_bottom}

-- `applyPollTick`.
unfoldable pub apply_poll_tick : Model → Model × List Cmd
apply_poll_tick m = (
  m,
  poll_tick
      ∷ refresh_chats
      ∷ load_contacts
      ∷ (if not (m.current_chat_id == "") && is_open m.current_chat_id m
          then refresh_messages m.current_chat_id ∷ []
          else []),
)

-- Two minutes in nanoseconds.
abbrev pub clock_skew : ℕ
clock_skew = 120_000_000_000

abbrev pub has_attachments : Message → Bool
has_attachments msg = elim msg.attachments [ [] ↦ false | _ ∷ _ ↦ true ]

-- The test of `hasEcho` on one message of the server.
unfoldable pub is_echo : Message → Message → Bool
is_echo local msg =
    msg.is_from_me
    && msg.text == local.text
    && same_bool (has_attachments msg) (has_attachments local)
    && (eqb msg.timestamp 0 || ltb local.timestamp (msg.timestamp + clock_skew))

-- `hasEcho`.
abbrev pub has_echo : List Message → Message → Bool
has_echo msgs local = any (is_echo local) msgs

abbrev pub is_local : Message → Bool
is_local msg = has_prefix "local:" msg.id

-- The loop of `applyMessagesRefreshed` over the old messages: the merged list and the failed sends.
unfoldable pub merge_locals :
    List Message
    → List Message
    → List (String × FailedSend)
    → List Message × List (String × FailedSend)
merge_locals merged [] failed = (merged, failed)
merge_locals merged (old ∷ olds) failed =
    let echoed = is_local old && has_echo merged old in
    merge_locals (if is_local old && not echoed then merged ++ old ∷ [] else merged) olds
      (if echoed then delete old.id failed else failed)

module _ ⦃platform : Platform⦄ where
  -- `applyMessagesRefreshed`.
  unfoldable pub apply_messages_refreshed : String → List Message → Model → Model
  apply_messages_refreshed chat_id msgs m =
      let (merged, failed) = merge_locals msgs m.messages m.failed_sends in
      let m' = record m { messages = merged; failed_sends = failed } in
      let pinned = record m' { msg_selected = last_message m'; msg_offset = max_msg_offset m' } in
      if chat_id == m.current_chat_id
      then clamp_window (if is_at_bottom m then pinned else m')
      else m
