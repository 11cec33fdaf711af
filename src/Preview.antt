-- ===== src/Preview.antt =====
-- internal/ui/preview.go: loading the preview pane. Its drawing is not modelled.
use beeper_tui.Base.{
  ◌&&◌, not, String, List, [], ◌∷◌, Option, none, some, if◌then◌else◌, get_elem?, lookup, insert,
  delete, is_some,
}
use beeper_tui.Api.{Message}
use beeper_tui.Model.{Model, Cmd, load_preview, is_list}

-- `previewLoad`: nothing when the pane is off, no chat is selected, or its messages are cached.
unfoldable pub preview_load : Model → List Cmd
preview_load m = elim (get_elem? m.chats m.selected) [
  | none ↦ []
  | some c ↦
      if m.preview_on && is_list m.mode && not (is_some (lookup c.id m.preview_cache))
      then load_preview c.id ∷ []
      else []
]

unfoldable pub toggle_preview : Model → Model × List Cmd
toggle_preview m =
    let m' = record m { preview_on = not m.preview_on } in
    if is_list m.mode then (m', if m'.preview_on then preview_load m' else []) else (m, [])

pub record PreviewLoaded : Type 0 where
  pub chat_id : String
  pub messages : List Message
  pub err : Option String

unfoldable pub apply_preview_loaded : PreviewLoaded → Model → Model
apply_preview_loaded msg m = elim msg.err [
  | some e ↦ record m { preview_err = insert msg.chat_id e m.preview_err }
  | none ↦ record m {
    preview_cache = insert msg.chat_id msg.messages m.preview_cache;
    preview_err = delete msg.chat_id m.preview_err;
  }
]
