-- ===== src/Examples/Requests.antt =====
-- Sending, reacting, archiving and loading on concrete states.
use beeper_tui.Base.{◌≡◌, ◌≢◌, String, ◌==◌, List, [], ◌∷◌, some, none, inr, if◌then◌else◌}
use beeper_tui.Model.{Model, MediaPreview}
use beeper_tui.Media.{load_previews}
use beeper_tui.Update.Previews.{receive, load_previews_once}
use beeper_tui.View.{preview_key}
use beeper_tui.Messages.{conn_refused}
use beeper_tui.Nav.Chats.{archive_selected}
use beeper_tui.Nav.Chats.Archive.{archive_selected_once}
use beeper_tui.Messages.Sending.{SendApi}
use beeper_tui.Examples.{plain_platform, written, two_chats, three_messages, hello, photo}

-- A server that refuses one file.
instance abbrev picky : SendApi
picky = record {
  send_text = λ chat text. none;
  upload_asset = λ path. inr path;
  send_attachment = λ chat text upload. if upload == "b.png" then some conn_refused else none;
}

abbrev with_files : Model
with_files = record written { compose_atts = "a.png" ∷ "b.png" ∷ "c.png" ∷ [] }

archive_selected_once_example : (archive_selected (archive_selected two_chats).0).1 ≡ []
archive_selected_once_example = archive_selected_once two_chats

abbrev with_photo : Model
with_photo = record three_messages { messages = record hello { attachments = photo ∷ [] } ∷ [] }

-- The one load fails.
abbrev one_failed : List (String × MediaPreview)
one_failed = (preview_key hello photo, record { lines = []; err = some "no such file" }) ∷ []

load_previews_once_example :
    load_previews (receive 0 one_failed (load_previews with_photo).0)
    ≡ (receive 0 one_failed (load_previews with_photo).0, [])
load_previews_once_example = load_previews_once 0 one_failed with_photo

abbrev me : String
me = "me"

me_known : me ≢ ""
me_known h = cc
