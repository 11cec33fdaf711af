-- ===== src/Examples/Questions.antt =====
-- The tools of the assistant on concrete chats.
use beeper_tui.Base.{List, ok, ◌≡◌, pos, true, false, [], ◌∷◌, none, some, error}
use beeper_tui.Api.{Chat, MessageSearchResult}
use beeper_tui.Tools.{ToolsApi, ToolArgs}
use beeper_tui.Cards.{Yaml}
use beeper_tui.Cards.Sweep.{SweepApi}
use beeper_tui.Tools.Cards.{ToolEnv}
use beeper_tui.Tools.Exec.{exec_chat_tool}
use beeper_tui.Tools.Exec.Output.{decisions, exec_chat_tool-decisions}
use beeper_tui.Examples.{plain_platform, chat_of, message_of}

abbrev hit : MessageSearchResult
hit = record { message = message_of "m1" "y" "hello" 3 true }

abbrev no_args : ToolArgs
no_args = record {
  filter = "";
  limit = pos 0;
  chat = "";
  query = "";
  sender = "";
  after = "";
  before = "";
  name = "Lee Wang";
  at = "";
  dismiss_on_message = true;
}

abbrev few_chats : List Chat
few_chats = chat_of "x" false 0 1 ∷ chat_of "y" false 0 2 ∷ []

-- A server that lists two chats and answers nothing else.
instance abbrev listing : ToolsApi
listing = record {
  list_chats = ok few_chats;
  search_chats = λ _. error "offline";
  list_messages = λ _. error "offline";
  list_contacts = error "offline";
  search_contacts = λ _. error "offline";
  search_messages_filtered = λ _. error "offline";
  set_reminder = λ _ _ _. none;
  decode_args = λ _. no_args;
  recent_first = λ cs. cs;
  newest_first = λ rs. rs;
  time_text = λ _. "";
  short_time_text = λ _. "";
  full_time_text = λ _. "";
  parse_date = λ _. none;
  next_day = λ t. t;
  parse_layout = λ _ _. none;
}

-- An encoding that writes the name alone, and a sweep that reads nothing.
instance abbrev names : Yaml
names = record { marshal = λ c. ok c.name; unmarshal = λ text c. ok c }

instance abbrev silence : SweepApi
silence = record {
  model_ready = true;
  list_chats = ok [];
  list_messages = λ _. error "offline";
  complete = λ _ _. error "offline";
  decode = λ _. error "offline";
  date = λ _. "";
  sort_targets = λ ps. ps;
  now = 0;
  cancelled = λ _. false;
}

-- A store and a policy with a name that is approved and one that is denied.
abbrev deciding : ToolEnv
deciding = record {
  people = some (record { files = []; marks = []; provenance = []; failure = none });
  has_llm = true;
  merges = some (record { approved = "lee wang" ∷ []; denied = "ann park" ∷ []; pending = [] });
}

exec_chat_tool-decisions_example :
    decisions (exec_chat_tool deciding "person_card" "{}").1.merges ≡ decisions deciding.merges
exec_chat_tool-decisions_example = exec_chat_tool-decisions deciding "person_card" "{}"
