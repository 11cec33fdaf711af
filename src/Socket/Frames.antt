-- ===== src/Socket/Frames.antt =====
-- internal/ws/events.go: the frames of the server. The decoding of JSON is the interface `Json`; an
-- entry stays the text that it is.
use beeper_tui.Base.{
  ℤ, ℕ, Bool, ◌||◌, ◌==◌, String, List, [], ◌∷◌, Option, none, some, Result, ok, error,
  if◌then◌else◌, texts,
}

pub record Event : Type 0 where
  pub type : String
  pub seq : ℕ
  pub ts : ℕ
  pub account_id : String
  pub chat_id : String
  pub ids : List String
  pub entries : List String
  pub err : Option String
  pub retry_in : ℕ

-- `EventType` by its values.
abbrev pub event_connecting : String
event_connecting = "connecting"

abbrev pub event_connected : String
event_connected = "connected"

abbrev pub event_disconnected : String
event_disconnected = "disconnected"

-- `ready`, `subscriptionsUpdated`, `serverError`, or a domain event.
pub data Frame : Type 0 where
  ready : ℕ → List String → Frame
  subscriptions_updated : String → List String → Frame
  server_error : String → String → String → Frame
  event : Event → Frame

-- `wireFrame`; `ts` is the raw text.
pub record WireFrame : Type 0 where
  pub type : String
  pub request_id : String
  pub version : ℕ
  pub chat_ids : List String
  pub code : String
  pub message : String
  pub seq : ℕ
  pub ts : String
  pub account_id : String
  pub chat_id : String
  pub ids : List String
  pub entries : List String

pub record Json : Type 0 where
  -- `json.Unmarshal` into a `wireFrame`, an `int64` and a `string`.
  pub decode_wire : String → Result WireFrame
  pub decode_int : String → Option ℤ
  pub decode_string : String → Option String
  -- `time.Parse(time.RFC3339Nano, s)`, `strconv.ParseInt(s, 10, 64)` and `time.UnixMilli`.
  pub parse_rfc3339 : String → Option ℕ
  pub parse_int : String → Option ℤ
  pub unix_milli : ℤ → ℕ

-- The types of the events that the server pushes.
abbrev pub is_domain : String → Bool
is_domain t =
    t == "message.upserted" || t == "message.deleted" || t == "chat.upserted" || t == "chat.deleted"

module _ ⦃json : Json⦄ where
  -- The time of a text that is no number.
  abbrev time_of_text : String → ℕ
  time_of_text s = elim (json.parse_rfc3339 s) [
    | some t ↦ t
    | none ↦ elim (json.parse_int s) [ none ↦ 0 | some millis ↦ json.unix_milli millis ]
  ]

  -- `flexTime.UnmarshalJSON`, of a field that was the zero time.
  unfoldable pub flex_time : String → ℕ
  flex_time raw = if raw == "null" then 0 else elim (json.decode_int raw) [
    | some millis ↦ json.unix_milli millis
    | none ↦ elim (json.decode_string raw) [ none ↦ 0 | some s ↦ time_of_text s ]
  ]

  abbrev domain_event : WireFrame → Event
  domain_event f = record {
    type = f.type;
    seq = f.seq;
    ts = flex_time f.ts;
    account_id = f.account_id;
    chat_id = f.chat_id;
    ids = f.ids;
    entries = f.entries;
    err = none;
    retry_in = 0;
  }

  -- `decodeFrame`.
  unfoldable pub frame_of : WireFrame → Result Frame
  frame_of f =
      if f.type == "ready"
      then ok (ready f.version f.chat_ids)
      else if f.type == "subscriptions.updated"
      then ok (subscriptions_updated f.request_id f.chat_ids)
      else if f.type == "error"
      then ok (server_error f.request_id f.code f.message)
      else if is_domain f.type
      then ok (event (domain_event f))
      else error (texts ("ws: unknown frame type " ∷ f.type ∷ []))

  abbrev pub frame_of_wire : Result WireFrame → Result Frame
  frame_of_wire (error e) = error (texts ("ws: decode frame: " ∷ e ∷ []))
  frame_of_wire (ok f) = frame_of f

  unfoldable pub decode_frame : String → Result Frame
  decode_frame text = frame_of_wire (json.decode_wire text)
