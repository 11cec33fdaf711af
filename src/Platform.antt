-- ===== src/Platform.antt =====
-- What the program calls and does not implement: Unicode tables, the file system, the terminal
-- toolkit and the libraries for emoji and fuzzy search. Every definition that needs them takes them
-- as an instance.
use beeper_tui.Base.{ℕ, Bool, String, List, Option}

-- What the program reads of a `url.URL`.
pub record Url : Type 0 where
  pub host : String
  pub hostname : String
  pub port : String
  pub path : String

pub record Platform : Type 0 where
  -- `strings.ToLower`.
  pub lower : String → String
  -- `strings.EqualFold`.
  pub equal_fold : String → String → Bool
  -- `os.Stat(path)` succeeds and is no directory.
  pub file_exists : String → Bool
  -- `filepath.Ext` and `filepath.Base`.
  pub path_ext : String → String
  pub path_base : String → String
  -- `os.UserHomeDir`, none on its error, and `filepath.Join(home, rest)`.
  pub home_dir : Option String
  pub path_join : String → String → String
  -- `gomoji.ContainsEmoji`, and `gomoji.AllEmojis` as pairs of a slug and its characters.
  pub contains_emoji : String → Bool
  pub all_emojis : List (String × String)
  -- How many lines `lipgloss.NewStyle().Width(w).Render(s)` has, for `wrap` at a width above 0.
  pub rendered_lines : String → ℕ → ℕ
  -- The text of a number, `%d`.
  pub decimal : ℕ → String
  -- `url.Parse`, none on its error.
  pub parse_url : String → Option Url
  -- `transform.String(stripMarks, s)`, its input on an error.
  pub strip_marks : String → String
  -- `fuzzy.LevenshteinDistance` and `fuzzy.MatchNormalizedFold`.
  pub edit_distance : String → String → ℕ
  pub is_subsequence : String → String → Bool
  -- `unicode.IsLetter(r) || unicode.IsDigit(r)`, of a code point.
  pub is_word_rune : ℕ → Bool
