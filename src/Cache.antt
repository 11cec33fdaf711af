-- ===== src/Cache.antt =====
-- internal/ui/cache.go and internal/state/cache.go: the snapshot for a warm start. The encoding to
-- JSON and the file are not modelled: `state.Load` is a function of what the file decodes to.
pub mod WarmStart
use beeper_tui.Base.{
  ℕ, ◌+◌, false, ◌||◌, String, ◌==◌, List, [], ◌∷◌, Option, none, some, if◌then◌else◌, ltb, eqb,
  get_elem?,
}
use beeper_tui.Api.{Chat}
use beeper_tui.Model.{Model, Cmd, save_cache}
use beeper_tui.Sorting.{sort_chats, reselect_by_id}

pub record Cache : Type 0 where
  pub schema_version : ℕ
  pub last_selected_chat_id : String
  pub chats : List Chat

abbrev pub current_schema_version : ℕ
current_schema_version = 2

abbrev pub empty_cache : Cache
empty_cache = record { schema_version = 0; last_selected_chat_id = ""; chats = [] }

-- What reading and decoding the file gives.
pub data CacheFile : Type 0 where
  missing unreadable corrupt : CacheFile
  decoded : Cache → CacheFile

pub data LoadResult : Type 0 where
  loaded : Cache → LoadResult
  read_error err_corrupt_cache err_schema_mismatch : LoadResult

-- `state.Load`.
unfoldable pub load : CacheFile → LoadResult
load missing = loaded empty_cache
load unreadable = read_error
load corrupt = err_corrupt_cache
load (decoded c) =
    if eqb c.schema_version current_schema_version then loaded c else err_schema_mismatch

-- What `state.Save` writes.
unfoldable pub stamp : Cache → Cache
stamp c = record c { schema_version = current_schema_version }

-- `WithCache`.
unfoldable pub with_cache : Cache → String → Model → Model
with_cache c path m = elim c.chats [
  | [] ↦ record m { cache_path = path }
  | _ ∷ _ ↦ record m {
    cache_path = path;
    chats = sort_chats c.chats;
    selected = reselect_by_id (sort_chats c.chats) c.last_selected_chat_id;
    loading_chats = false;
  }
]

-- The ID of the selected chat, the empty text when there is none.
abbrev id_of : Option Chat → String
id_of none = ""
id_of (some c) = c.id

unfoldable pub selected_id : Model → String
selected_id m = id_of (get_elem? m.chats m.selected)

-- `Snapshot`.
unfoldable pub snapshot : Model → Cache
snapshot m = record { schema_version = 0; last_selected_chat_id = selected_id m; chats = m.chats }

-- Ten seconds in nanoseconds.
abbrev pub cache_save_debounce : ℕ
cache_save_debounce = 10_000_000_000

-- `maybeSaveCache`, at the time `now`.
unfoldable pub maybe_save_cache : ℕ → Model → Model × List Cmd
maybe_save_cache now m =
    let snap = snapshot m in
    elim m.chats [
      | [] ↦ (m, [])
      | _ ∷ _ ↦
          if m.cache_path == "" || ltb now (m.cache_saved_at + cache_save_debounce)
          then (m, [])
          else (
            record m { cache_saved_at = now },
            save_cache m.cache_path snap.last_selected_chat_id snap.chats ∷ [],
          )
    ]
