-- ===== src/Api.antt =====
-- internal/api/types.go: the program's own view of chats, messages and contacts. A time is a number
-- of nanoseconds since Go's zero time, so `IsZero` is the test against 0. `Attachment.Duration`, a
-- float that only a label shows, is left out.
use beeper_tui.Base.{ℕ, Bool, String, List}

pub record Participant : Type 0 where
  pub user_id : String
  pub full_name : String
  pub username : String
  pub is_self : Bool
  pub is_bot : Bool

pub record Chat : Type 0 where
  pub id : String
  pub account_id : String
  pub network : String
  pub title : String
  pub type : String
  pub unread : ℕ
  pub mentions : ℕ
  pub muted : Bool
  pub low_priority : Bool
  pub pinned : Bool
  pub archived : Bool
  pub marked_unread : Bool
  pub last_active : ℕ
  pub preview : String
  pub last_from_me : Bool
  pub last_sender : String
  pub allowed_reactions : List String
  pub preview_sender_id : String
  pub participants : List Participant

pub record Contact : Type 0 where
  pub account_id : String
  pub user_id : String
  pub full_name : String
  pub username : String
  pub phone_number : String
  pub email : String

pub record Attachment : Type 0 where
  pub type : String
  pub id : String
  pub src_url : String
  pub file_name : String
  pub file_size : ℕ
  pub mime_type : String
  pub width : ℕ
  pub height : ℕ
  pub is_voice_note : Bool
  pub is_gif : Bool
  pub is_sticker : Bool
  pub transcription : String

pub record Reaction : Type 0 where
  pub key : String
  pub emoji : Bool
  pub participant_id : String

pub record Message : Type 0 where
  pub id : String
  pub chat_id : String
  pub sender_name : String
  pub text : String
  pub timestamp : ℕ
  pub is_from_me : Bool
  pub is_unread : Bool
  pub is_reaction : Bool
  pub reactions : List Reaction
  pub attachments : List Attachment

pub record MessageSearchResult : Type 0 where
  pub message : Message
