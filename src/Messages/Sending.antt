-- ===== src/Messages/Sending.antt =====
-- internal/ui/media.go and messages.go: what the commands that send do when they run: `sendMessageCmd`
-- and `sendAttachmentsCmd`. The calls of the API are an interface.
use beeper_tui.Base.{String, List, [], ◌∷◌, ◌++◌, Option, none, some, ◌⊎◌, inl, inr}
use beeper_tui.Model.{Cmd, send_message, send_attachments}
use beeper_tui.Messages.{SendError}

-- `client.SendMessage`, `client.UploadAsset` and `client.SendAttachment`.
pub record SendApi : Type 0 where
  pub send_text : String → String → Option SendError
  pub upload_asset : String → SendError ⊎ String
  pub send_attachment : String → String → String → Option SendError

-- One message that is to be delivered: its text, and the path of its attachment.
pub record Part : Type 0 where
  pub chat_id : String
  pub local_id : String
  pub text : String
  pub path : Option String

-- `sendResultMsg`.
pub record SendResult : Type 0 where
  pub local_id : String
  pub text : String
  pub atts : List String
  pub err : Option SendError

abbrev pub text_part : String → String → String → Part
text_part chat id text = record { chat_id = chat; local_id = id; text = text; path = none }

abbrev pub file_part : String → String → String → String → Part
file_part chat id text path = record {
  chat_id = chat;
  local_id = id;
  text = text;
  path = some path;
}

-- The attachments of a request: the caption goes with the first.
unfoldable pub file_parts : String → String → String → List String → List Part
file_parts chat id text [] = []
file_parts chat id text (p ∷ ps) = file_part chat id text p ∷ file_parts chat id "" ps

-- What a command asks to deliver.
unfoldable pub parts_of : Cmd → List Part
parts_of (send_message chat id text) = text_part chat id text ∷ []
parts_of (send_attachments chat id text paths) = file_parts chat id text paths
parts_of _ = []

unfoldable pub all_parts : List Cmd → List Part
unfolding parts_of
all_parts [] = []
all_parts (c ∷ cs) = parts_of c ++ all_parts cs

abbrev pub send_failed : String → String → List String → SendError → List Part × SendResult
send_failed id text atts e = ([], record { local_id = id; text = text; atts = atts; err = some e })

abbrev pub and_then : Part → List Part × SendResult → List Part × SendResult
and_then p (ps, r) = (p ∷ ps, r)

abbrev pub all_sent : String → String → SendResult
all_sent id text = record { local_id = id; text = text; atts = []; err = none }

module _ ⦃api : SendApi⦄ where
  -- One round of `sendAttachmentsCmd` after the upload, and after the send, with what the rest of the
  -- loop does. The first failure aborts the rest.
  abbrev pub after_send :
      String
      → String
      → String
      → String
      → List String
      → Option SendError
      → List Part × SendResult
      → List Part × SendResult
  after_send chat id text p ps (some e) rest = send_failed id text (p ∷ ps) e
  after_send chat id text p ps none rest = and_then (file_part chat id text p) rest

  abbrev pub after_upload :
      String
      → String
      → String
      → String
      → List String
      → SendError ⊎ String
      → List Part × SendResult
      → List Part × SendResult
  after_upload chat id text p ps (inl e) rest = send_failed id text (p ∷ ps) e
  after_upload chat id text p ps (inr upload) rest =
      after_send chat id text p ps (api.send_attachment chat text upload) rest

  -- The loop of `sendAttachmentsCmd`, with the text of the next attachment: what is delivered, and the
  -- result.
  unfoldable pub send_files : String → String → String → List String → List Part × SendResult
  send_files chat id text [] = ([], all_sent id "")
  send_files chat id text (p ∷ ps) =
      after_upload chat id text p ps (api.upload_asset p) (send_files chat id "" ps)

  -- `sendMessageCmd`.
  abbrev pub after_text : String → String → String → Option SendError → List Part × SendResult
  after_text chat id text (some e) = send_failed id text [] e
  after_text chat id text none = (text_part chat id text ∷ [], all_sent id text)

  unfoldable pub send_one : String → String → String → List Part × SendResult
  send_one chat id text = after_text chat id text (api.send_text chat text)

  -- A command that sends, run; any other delivers nothing.
  unfoldable pub run_send : Cmd → List Part × SendResult
  unfolding send_one send_files
  run_send (send_message chat id text) = send_one chat id text
  run_send (send_attachments chat id text paths) = send_files chat id text paths
  run_send _ = ([], all_sent "" "")
