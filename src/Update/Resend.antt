-- ===== src/Update/Resend.antt =====
-- internal/ui: the life of a message that could not be sent, from the composer to the retry key.
use beeper_tui.Base.{◌≡◌, String, List, [], ◌∷◌, ◌++◌}
use beeper_tui.Platform.{Platform}
use beeper_tui.Api.{Message}
use beeper_tui.Model.{Model, Cmd}
use beeper_tui.Messages.{resend}
use beeper_tui.Messages.Sending.{SendApi, Part, SendResult, parts_of, run_send, all_sent}
use beeper_tui.Update.{on_send_result}

module _ ⦃api : SendApi⦄ where
  -- What was delivered, then what a message and a draft make of the failure, is what was asked for.
  abbrev IsSplit : Message → String → List Part × SendResult → List Part → Type 0
  IsSplit msg reason (delivered, r) parts =
      (r.local_id ≡ msg.id)
      × (delivered
            ++ parts_of (resend msg (record { reason = reason; text = r.text; atts = r.atts }))
          ≡ parts)

  -- The command that a list starts with, run.
  unfoldable pub run_sends : List Cmd → List Part × SendResult
  run_sends [] = ([], all_sent "" "")
  run_sends (c ∷ cs) = run_send c

  module _ ⦃platform : Platform⦄ where
    -- The state after the attempt, with the failure that it reported.
    abbrev pub reported : SendResult → Model → Model
    reported r m = (on_send_result r.local_id r.text r.atts r.err m).0
