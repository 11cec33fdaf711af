-- ===== src/Examples.antt =====
-- A platform, chats and messages on which the theorems are applied and the model is run.
pub mod Window
pub mod Live
pub mod Requests
pub mod Answers
pub mod Secrets
pub mod People
pub mod Sockets
pub mod Questions
pub mod Replies
pub mod Links
use beeper_tui.Base.{ℕ, String, ◌==◌, Bool, true, false, List, [], ◌∷◌, none, some, pos, length}
use beeper_tui.Platform.{Platform}
use beeper_tui.Api.{Chat, Message, Attachment}
use beeper_tui.Model.{Model, Mode, new, FailedSend, Llm, list, conversation}
use beeper_tui.Tab.{Tab}

-- A platform without files, emoji or a home directory, where every message has one line.
instance abbrev pub plain_platform : Platform
plain_platform = record {
  lower = λ s. s;
  file_exists = λ _. false;
  path_ext = λ _. "";
  path_base = λ s. s;
  home_dir = none;
  path_join = λ s t. t;
  contains_emoji = λ _. false;
  all_emojis = [];
  rendered_lines = λ _ _. 1;
  decimal = λ _. "1";
  parse_url = λ _. none;
  strip_marks = λ s. s;
  equal_fold = λ s t. s == t;
  edit_distance = λ _ _. 0;
  is_subsequence = λ _ _. false;
  is_word_rune = λ _. true;
}

abbrev pub chat_of : String → Bool → ℕ → ℕ → Chat
chat_of id pin unread time = record {
  id = id;
  account_id = "matrix";
  network = "Matrix";
  title = id;
  type = "single";
  unread = unread;
  mentions = 0;
  muted = false;
  low_priority = false;
  pinned = pin;
  archived = false;
  marked_unread = false;
  last_active = time;
  preview = "";
  last_from_me = false;
  last_sender = "";
  allowed_reactions = [];
  preview_sender_id = "";
  participants = [];
}

abbrev pub message_of : String → String → String → ℕ → Bool → Message
message_of id chat_id text time mine = record {
  id = id;
  chat_id = chat_id;
  sender_name = "";
  text = text;
  timestamp = time;
  is_from_me = mine;
  is_unread = false;
  is_reaction = false;
  reactions = [];
  attachments = [];
}

abbrev pub photo : Attachment
photo = record {
  type = "img";
  id = "asset";
  src_url = "";
  file_name = "photo.png";
  file_size = 1;
  mime_type = "image/png";
  width = 1;
  height = 1;
  is_voice_note = false;
  is_gif = false;
  is_sticker = false;
  transcription = "";
}

abbrev pub ann : Chat
ann = chat_of "ann" false 1 20

abbrev pub bob : Chat
bob = chat_of "bob" false 0 10

-- Two chats, the second selected.
abbrev pub two_chats : Model
two_chats = record (new true) { chats = ann ∷ bob ∷ []; selected = 1 }

abbrev pub hello : Message
hello = message_of "m1" "bob" "hello" 1 false

abbrev pub again : Message
again = message_of "m2" "bob" "again" 2 true

abbrev pub lunch : Message
lunch = message_of "m3" "bob" "lunch?" 30 false

-- A conversation of three messages on a screen of two rows, with the cursor past the end.
abbrev pub three_messages : Model
three_messages = record (new true) {
  mode = conversation;
  current_chat_id = "bob";
  messages = hello ∷ again ∷ lunch ∷ [];
  msg_selected = pos 7;
  height = 4;
}

-- The text "on my way" is written in the conversation.
abbrev pub written : Model
written = record three_messages { mode = Mode.insert; input = "on my way" }
