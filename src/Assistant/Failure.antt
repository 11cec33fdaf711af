-- ===== src/Assistant/Failure.antt =====
-- internal/ui/chatview.go: naming the model server, and turning an error into advice.
use beeper_tui.Base.{
  Bool, ◌||◌, String, ◌==◌, List, [], ◌∷◌, Option, none, some, if◌then◌else◌, ltb, any, trim_space,
  trim_right_slash, contains, texts,
}
use Prim.Native.String.{len}
use beeper_tui.Platform.{Platform, Url}
use beeper_tui.Model.{Llm}
use beeper_tui.Messages.{truncate}

pub record ServerInfo : Type 0 where
  pub name : String
  pub address : String

pub record Failure : Type 0 where
  pub title : String
  pub summary : String
  pub action : String
  pub command : String
  pub config : String

abbrev port_name : String → String
port_name port =
    if port == "1234" then "LM Studio" else if port == "11434" then "Ollama" else "model server"

-- The address that is shown: the host, with a path other than `/v1`.
abbrev shown_address : Url → String
shown_address u =
    let path = trim_right_slash u.path in
    if path == "" || path == "/v1" then u.host else texts (u.host ∷ path ∷ [])

abbrev server_at : String → Option Url → ServerInfo
server_at raw none = record { name = "model server"; address = raw }
server_at raw (some u) =
    if u.host == "" then record { name = "model server"; address = raw } else record {
      name = if u.hostname == "inference.tinfoil.sh" then "Tinfoil" else port_name u.port;
      address = shown_address u;
    }

abbrev mentions : List String → String → Bool
mentions words text = any (λ w. contains w text) words

module _ ⦃platform : Platform⦄ where
  -- `chatServer`.
  unfoldable pub chat_server : Option Llm → ServerInfo
  chat_server none = record { name = "model server"; address = "configured endpoint" }
  chat_server (some llm) = server_at llm.base_url (platform.parse_url llm.base_url)

  -- `chatErrorDetail` of an error that is not nil.
  unfoldable pub chat_error_detail : String → String
  chat_error_detail err =
      let detail = trim_space err in
      let lower = platform.lower detail in
      if contains "connection refused" lower
      then "connection refused"
      else if mentions ("deadline exceeded" ∷ "timeout" ∷ []) lower
      then "connection timed out"
      else if ltb 140 (len detail)
      then truncate detail 140
      else detail

  abbrev unreachable : ServerInfo → Failure
  unreachable server = record {
    title = texts ("Can't reach " ∷ server.name ∷ []);
    summary = texts ("Chat depends on " ∷ server.name ∷ ", and it is not responding." ∷ []);
    action =
        if server.name == "LM Studio"
        then "Open LM Studio, load a chat model, and start Local Server."
        else if server.name == "Ollama"
        then "Start Ollama and make sure a chat model is installed."
        else "Start the server and make sure its OpenAI-compatible API is available.";
    command = if server.name == "LM Studio" then "lms server start" else "";
    config = if server.name == "LM Studio" then "BEEPER_LLM_BASE_URL" else "";
  }

  -- `chatFailureFor`.
  unfoldable pub chat_failure_for : String → ServerInfo → Failure
  chat_failure_for err server =
      let detail = platform.lower (chat_error_detail err) in
      if mentions ("attestation" ∷ "verify enclave" ∷ "certificate" ∷ []) detail
      then record {
        title = "Enclave attestation failed";
        summary = texts ("Nothing was sent: " ∷ server.name ∷ " could not be verified." ∷ []);
        action = "Press enter to verify again.";
        command = "";
        config = "";
      }
      else if mentions ("http 401" ∷ "http 403" ∷ "invalid api key" ∷ "unauthorized" ∷ []) detail
      then record {
        title = texts (server.name ∷ " rejected the API key" ∷ []);
        summary = texts ("Chat reached " ∷ server.name ∷ ", but the key was not accepted." ∷ []);
        action = "Check TINFOIL_API_KEY, then press enter to retry.";
        command = "";
        config = "TINFOIL_API_KEY";
      }
      else if mentions ("http 429" ∷ "rate limit" ∷ []) detail
      then record {
        title = "Rate limited";
        summary = texts (server.name ∷ " is temporarily refusing more requests." ∷ []);
        action = "Wait a moment, then press enter to retry.";
        command = "";
        config = "";
      }
      else if mentions ("no chat model" ∷ "model not found" ∷ "unknown model" ∷ []) detail
      then record {
        title = "No chat model is available";
        summary =
            texts
              (server.name ∷ " is responding, but Chat could not find the model it needs." ∷ []);
        action = "Load a chat model, or set BEEPER_LLM_MODEL to one the server provides.";
        command = "";
        config = "BEEPER_LLM_MODEL";
      }
      else if mentions
          ("connection refused" ∷ "dial tcp" ∷ "no such host" ∷ "timeout" ∷ "timed out"
            ∷ "deadline exceeded" ∷ [])
          detail
      then unreachable server
      else record {
        title = "The model server rejected the request";
        summary =
            texts ("Chat reached " ∷ server.name ∷ ", but it could not complete the request." ∷ []);
        action = "Check the configured model and OpenAI-compatible chat endpoint, then try again.";
        command = "";
        config = "BEEPER_LLM_MODEL · BEEPER_LLM_BASE_URL";
      }

  -- `chatRuntimeError`.
  unfoldable pub chat_runtime_error : String → ServerInfo → String
  chat_runtime_error err server =
      let failure = chat_failure_for err server in
      texts (failure.title ∷ ". " ∷ failure.action ∷ " Press enter to reconnect." ∷ [])
