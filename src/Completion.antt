-- ===== src/Completion.antt =====
-- internal/llm/client.go: the client of the model server. Its requests are outside: an operation takes
-- what the server answered, decoded by the interface `Decoder`.
pub mod Stream
pub mod Lookup
pub mod Calls
use Prim.Native.Char.{code}
use Prim.Native.String.{◌++◌ as concat}
use beeper_tui.Base.{
  ℤ, pos, negsuc, ℕ, zero, suc, Bool, true, false, not, ◌&&◌, String, ◌==◌, List, [], ◌∷◌, Option,
  none, some, Result, ok, error, map, if◌then◌else◌, eqb, leb, contains, texts,
}
use beeper_tui.Platform.{Platform}

-- `Redactor`.
pub record Redactor : Type 0 where
  pub redact : String → String
  pub rehydrate : String → String
  pub hold_back : String → String × String

pub record FuncCall : Type 0 where
  pub name : String
  pub arguments : String

pub record ToolCall : Type 0 where
  pub id : String
  pub type : String
  pub function : FuncCall

pub record Message : Type 0 where
  pub role : String
  pub content : String
  pub tool_calls : List ToolCall
  pub tool_call_id : String

-- One entry of the `tool_calls` of a delta.
pub record Fragment : Type 0 where
  pub index : ℤ
  pub id : String
  pub name : String
  pub arguments : String

-- `chunkDelta`.
pub record Delta : Type 0 where
  pub content : String
  pub reasoning : String
  pub reasoning_content : String
  pub fragments : List Fragment

-- `chunk`.
pub record Chunk : Type 0 where
  pub choices : List Delta
  pub err : Option String

-- `json.Unmarshal` of a chunk.
pub record Decoder : Type 0 where
  pub decode_chunk : String → Option Chunk

module _ ⦃platform : Platform⦄ where
  -- The first model of the server that is not for embeddings.
  abbrev first_chat_model : List String → Option String
  first_chat_model [] = none
  first_chat_model (id ∷ ids) =
      let rest = first_chat_model ids in
      if contains "embed" (platform.lower id) then rest else some id

  -- `DetectModel`, with the model that is set and what the server lists: the answer, which is the model
  -- that is set afterwards.
  unfoldable pub detect_model : String → Result (List String) → Result String
  detect_model model (error e) = error e
  detect_model model (ok ids) =
      if not (model == "")
      then ok model
      else elim (first_chat_model ids) [ none ↦ error "no chat model loaded" | some id ↦ ok id ]

abbrev with_arguments : (String → String) → ToolCall → ToolCall
with_arguments f tc = record tc {
  function = record tc.function { arguments = f tc.function.arguments };
}

-- `redactMessages`.
unfoldable pub redact_messages : Option Redactor → List Message → List Message
redact_messages none msgs = msgs
redact_messages (some r) msgs =
    map
      (λ (m : Message). record m {
        content = r.redact m.content;
        tool_calls = map (with_arguments r.redact) m.tool_calls;
      })
      msgs

-- A text from its first "{", and up to its last "}"; empty where there is none.
from_brace : String → String
from_brace String.[] = ""
from_brace (String.◌∷◌ c s) =
    let rest = from_brace s in if eqb (code c) 123 then String.◌∷◌ c s else rest

to_brace : String → String
to_brace String.[] = ""
to_brace (String.◌∷◌ c s) =
    let rest = to_brace s in if rest == "" && not (eqb (code c) 125) then "" else String.◌∷◌ c rest

-- `extractJSONObject`.
unfoldable pub extract_json_object : String → String
unfolding from_brace to_brace
extract_json_object s = to_brace (from_brace s)

-- The loop at the end of `Complete` over the content and the reasoning of a reply.
first_object : List String → Option String
first_object [] = none
first_object (raw ∷ raws) =
    let rest = first_object raws in
    if extract_json_object raw == "" then rest else some (extract_json_object raw)

abbrev rehydrated : Option Redactor → String → String
rehydrated none s = s
rehydrated (some r) s = r.rehydrate s

-- `Complete`, of the choices that the reply decodes to, each a content and a reasoning.
unfoldable pub complete : Option Redactor → List (String × String) → Result String
unfolding first_object
complete redactor [] = error "llm: completion returned no choices"
complete redactor ((content, reasoning) ∷ choices) =
    elim (first_object (content ∷ reasoning ∷ [])) [
      | none ↦ error "llm: completion had no JSON object"
      | some j ↦ ok (rehydrated redactor j)
    ]
