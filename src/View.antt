-- ===== src/View.antt =====
-- internal/ui/view.go: the heights that scrolling counts. `messageBlock` and `attachmentLines` build
-- the lines of a message; of a line only its number matters here, so these are lengths of lists.
-- The text of the lines, their styles and the rest of the rendering are not modelled.
use beeper_tui.Base.{
  ℕ, suc, ◌+◌, Bool, String, List, [], ◌∷◌, Option, none, some, length, get_elem?, lookup, ◌==◌,
  if◌then◌else◌,
}
use beeper_tui.Api.{Attachment, Message}
use beeper_tui.Model.{Model, MediaPreview}

-- `previewKey`.
unfoldable pub preview_key : Message → Attachment → String
preview_key msg att =
    if att.id == "" then (if att.src_url == "" then msg.id else att.src_url) else att.id

abbrev pub previewable : Attachment → Bool
previewable att = att.type == "img"

-- The inner switch for an image: the preview and its caption once it is loaded, else one line.
preview_height : Option MediaPreview → ℕ
preview_height none = 1
preview_height (some pv) = elim pv.lines [ [] ↦ 1 | _ ∷ _ ↦ length pv.lines + 1 ]

unfoldable pub attachment_lines : List (String × MediaPreview) → Message → Attachment → ℕ
unfolding preview_height preview_key
attachment_lines previews msg att =
    if att.is_voice_note
    then (if att.transcription == "" then 1 else 2)
    else if att.type == "audio"
    then 1
    else if att.type == "video"
    then 1
    else if previewable att
    then preview_height (lookup (preview_key msg att) previews)
    else 1

unfoldable pub attachments_height : List (String × MediaPreview) → Message → List Attachment → ℕ
attachments_height previews msg [] = 0
attachments_height previews msg (att ∷ atts) =
    attachment_lines previews msg att + attachments_height previews msg atts

-- `messageBlock`: the main row, then the rows of each attachment.
unfoldable pub message_block : List (String × MediaPreview) → Message → ℕ
unfolding attachments_height
message_block previews msg = suc (attachments_height previews msg msg.attachments)

-- `msgLines(i)`, which the code calls at an index of a message only.
unfoldable pub msg_lines : Model → ℕ → ℕ
msg_lines m i = elim (get_elem? m.messages i) [
  | none ↦ 0
  | some msg ↦ message_block m.media_previews msg
]
