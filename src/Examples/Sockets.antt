-- ===== src/Examples/Sockets.antt =====
-- A connection on concrete values.
use beeper_tui.Base.{false, refl, List, [], ◌∷◌, none, ok}
use beeper_tui.Socket.Frames.{Json, WireFrame, decode_frame, frame_of, event_connecting}
use beeper_tui.Socket.{
  Client, Label, Run, Step, silent, begin, then_step, new, default_backoff, emit, state_event,
  dialing, end_session, ended_with,
}
use beeper_tui.Socket.Schedule.{SpecRun, view, run-SpecRun}
use beeper_tui.Socket.Lifecycle.{IsInStage, run-IsInStage}
use beeper_tui.Socket.Subscriptions.{IsStale, overtaken_write}

abbrev ready_frame : WireFrame
ready_frame = record {
  type = "ready";
  request_id = "";
  version = 1;
  chat_ids = [];
  code = "";
  message = "";
  seq = 0;
  ts = "";
  account_id = "";
  chat_id = "";
  ids = [];
  entries = [];
}

-- A decoder for which every text is the handshake.
instance abbrev always_ready : Json
always_ready = record {
  decode_wire = λ _. ok ready_frame;
  decode_int = λ _. none;
  decode_string = λ _. none;
  parse_rfc3339 = λ _. none;
  parse_int = λ _. none;
  unix_milli = λ _. 0;
}

abbrev dialing_client : Client
dialing_client =
    emit (state_event event_connecting none 0) (record (new default_backoff) { phase = dialing })

abbrev dials : Run default_backoff (silent ∷ []) dialing_client
dials = then_step begin (Step.start (new default_backoff) refl)

-- The dial was refused.
abbrev refused : Client
refused = end_session false "refused" dialing_client

abbrev refused_labels : List Label
refused_labels = ended_with false refused ∷ silent ∷ []

abbrev waits : Run default_backoff refused_labels refused
waits = then_step dials (Step.dial_fails dialing_client "refused" refl)

run-SpecRun_example : SpecRun default_backoff refused_labels (view default_backoff refused)
run-SpecRun_example = run-SpecRun 1 (2 ∷ 4 ∷ 8 ∷ 16 ∷ 30 ∷ []) refused_labels refused waits

run-IsInStage_example : IsInStage refused
run-IsInStage_example = run-IsInStage default_backoff refused_labels refused waits

overtaken_write_example :
    (ls : List Label) × (c : Client) × Run default_backoff ls c × IsStale c ("a" ∷ []) ("*" ∷ [])
unfolding decode_frame frame_of
overtaken_write_example = overtaken_write default_backoff ("a" ∷ []) "{}" 1 [] refl
