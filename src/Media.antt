-- ===== src/Media.antt =====
-- internal/ui/media.go: the attachments of the composer and the loads of inline previews. Running
-- external programs, decoding and drawing images are not modelled.
pub mod Once
use beeper_tui.Base.{
  ℕ, ◌+◌, ◌-◌, Bool, false, not, ◌&&◌, ◌||◌, String, ◌==◌, List, [], ◌∷◌, ◌++◌, Option, none, some,
  if◌then◌else◌, ltb, eqb, any, trim_space, has_prefix, drop_last_rune, lookup, insert, is_some,
  get_elem?, pos, negsuc, ℤ,
}
use Prim.Native.Char.{code}
use beeper_tui.Platform.{Platform}
use beeper_tui.Api.{Attachment, Message}
use beeper_tui.Model.{Model, MediaPreview, Cmd, load_media, open_asset}
use beeper_tui.View.{preview_key, previewable}

abbrev preview_max_cols : ℕ
preview_max_cols = 40

-- `assetURL`.
unfoldable pub asset_url : Attachment → String
asset_url att = if att.id == "" then att.src_url else att.id

-- The width that `loadPreviewsCmd` asks for.
unfoldable pub preview_cols : ℕ → ℕ
preview_cols width =
    let cols =
      if ltb 0 width && ltb width (preview_max_cols + 16) then width - 16 else preview_max_cols in
    if ltb cols 8 then 8 else cols

abbrev pub in_flight : MediaPreview
in_flight = record { lines = []; err = none }

-- The inner loop of `loadPreviewsCmd`, over the attachments of one message.
unfoldable pub load_atts :
    ℕ
    → Message
    → List Attachment
    → List (String × MediaPreview)
    → List (String × MediaPreview) × List Cmd
load_atts cols msg [] previews = (previews, [])
load_atts cols msg (att ∷ atts) previews =
    let key = preview_key msg att in
    let fresh = previewable att && not (is_some (lookup key previews)) in
    let (previews', cmds) =
      load_atts cols msg atts (if fresh then insert key in_flight previews else previews) in
    (previews', if fresh then load_media key (asset_url att) cols ∷ cmds else cmds)

unfoldable pub load_msgs :
    ℕ → List Message → List (String × MediaPreview) → List (String × MediaPreview) × List Cmd
load_msgs cols [] previews = (previews, [])
load_msgs cols (msg ∷ msgs) previews =
    let (previews', cmds) = load_atts cols msg msg.attachments previews in
    let (previews'', cmds') = load_msgs cols msgs previews' in (previews'', cmds ++ cmds')

-- `loadPreviewsCmd`, which marks each load that it starts as in flight.
unfoldable pub load_previews : Model → Model × List Cmd
unfolding load_msgs load_atts
load_previews m =
    let (previews, cmds) = load_msgs (preview_cols m.width) m.messages m.media_previews in
    (record m { media_previews = previews }, cmds)

-- internal/ui/react.go: `cursorMessage`.
abbrev pub message_at : ℤ → List Message → Option Message
message_at (negsuc _) msgs = none
message_at (pos i) msgs = get_elem? msgs i

unfoldable pub cursor_message : Model → Option Message
cursor_message m = message_at m.msg_selected m.messages

-- `openCursorAttachment`.
unfoldable pub open_cursor_attachment : Model → Model × List Cmd
open_cursor_attachment m =
    let m' = record m { media_err = none } in
    elim (cursor_message m) [
      | none ↦ (m', [])
      | some msg ↦ elim msg.attachments [
        | [] ↦ (m', [])
        | att ∷ _ ↦ (m', open_asset (asset_url att) ∷ [])
      ]
    ]

abbrev media_exts : List String
media_exts =
    ".png" ∷ ".jpg" ∷ ".jpeg" ∷ ".gif" ∷ ".webp" ∷ ".heic" ∷ ".tiff" ∷ ".bmp" ∷ ".mp4" ∷ ".mov"
    ∷ ".webm" ∷ ".m4a" ∷ ".mp3" ∷ ".ogg" ∷ ".wav" ∷ ".pdf" ∷ []

abbrev first_is_space : String → Bool
first_is_space String.[] = false
first_is_space (String.◌∷◌ c s) = eqb (code c) 32

-- `strings.ReplaceAll(p, "\ ", " ")`: a backslash before a space is dropped.
unfoldable pub unescape_spaces : String → String
unescape_spaces String.[] = ""
unescape_spaces (String.◌∷◌ c s) =
    let rest = unescape_spaces s in
    if eqb (code c) 92 && first_is_space s then rest else String.◌∷◌ c rest

abbrev drop_first : String → String
drop_first String.[] = ""
drop_first (String.◌∷◌ c s) = s

-- `strings.HasSuffix(p, "'")`.
ends_with_quote : String → Bool
ends_with_quote String.[] = false
ends_with_quote (String.◌∷◌ c s) = (eqb (code c) 39 && s == "") || ends_with_quote s

-- The quotes that a terminal puts round a dropped path: a text longer than one character.
unfoldable pub strip_quotes : String → String
unfolding ends_with_quote
strip_quotes p =
    if has_prefix "'" p && ends_with_quote p && not (drop_first p == "")
    then drop_last_rune (drop_first p)
    else p

module _ ⦃platform : Platform⦄ where
  -- `isMediaFile`.
  unfoldable pub is_media_file : String → Bool
  is_media_file path =
      any (λ e. e == platform.lower (platform.path_ext path)) media_exts
      && platform.file_exists path

  abbrev if_media : String → Option String
  if_media p = if is_media_file p then some p else none

  abbrev from_home : Option String → String → Option String
  from_home none p = none
  from_home (some home) p = if_media (platform.path_join home (drop_first (drop_first p)))

  -- `pastedFilePath`, none for the empty text.
  unfoldable pub pasted_file_path : String → Option String
  pasted_file_path content =
      let p = unescape_spaces (strip_quotes (trim_space content)) in
      if has_prefix "~/" p
      then from_home platform.home_dir p
      else if has_prefix "/" p
      then if_media p
      else none
