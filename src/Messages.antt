-- ===== src/Messages.antt =====
-- internal/ui/messages.go: why a send failed, and sending again. The requests are commands.
pub mod Sending
use beeper_tui.Base.{ℕ, String, List, [], ◌∷◌, none, some, lookup, delete}
use Prim.Native.String.{◌++◌ as concat, slice}
use beeper_tui.Platform.{Platform}
use beeper_tui.Api.{Message}
use beeper_tui.Model.{Model, FailedSend, Cmd, send_message, send_attachments}
use beeper_tui.Media.{cursor_message}

-- The errors that `sendErrReason` tells apart; `other` has the text of the innermost error.
pub data SendError : Type 0 where
  deadline_exceeded conn_refused : SendError
  http_status : ℕ → SendError
  other : String → SendError

-- The first bytes of a text, as `truncate` keeps them. A character that the limit cuts is dropped
-- here, where the source keeps its first bytes.
abbrev pub truncate : String → ℕ → String
truncate s n = slice s 0 n

module _ ⦃platform : Platform⦄ where
  -- `sendErrReason`.
  unfoldable pub send_err_reason : SendError → String
  send_err_reason deadline_exceeded = "timed out"
  send_err_reason conn_refused = "beeper not running"
  send_err_reason (http_status s) = concat "HTTP " (platform.decimal s)
  send_err_reason (other root) = truncate root 40

abbrev pub resend : Message → FailedSend → Cmd
resend msg f = elim f.atts [
  | [] ↦ send_message msg.chat_id msg.id f.text
  | _ ∷ _ ↦ send_attachments msg.chat_id msg.id f.text f.atts
]

-- `retryFailedSend`.
unfoldable pub retry_failed_send : Model → Model × List Cmd
retry_failed_send m = elim (cursor_message m) [
  | none ↦ (m, [])
  | some msg ↦ elim (lookup msg.id m.failed_sends) [
    | none ↦ (m, [])
    | some f ↦ (record m { failed_sends = delete msg.id m.failed_sends }, resend msg f ∷ [])
  ]
]
