-- ===== src/Web/Search.antt =====
-- app/tools/builtin/search.py and langsearch.py. The two services are parameters, with the fields that
-- the tools read from a reply. A score is in thousandths.
use agent_operator.Errors.{tool_error, other_exception}
use agent_operator.Prelude.{
  ℕ, Bool, false, not, String, str_eq, Option, none, some, List, [], ◌∷◌, Action, pure, raise,
  raise_if, ◌>>=◌, ◌>>◌, if◌then◌else◌,
}
use agent_operator.Text.{Text, is_empty}

pub record SearchResult : Type 0 where
  pub title : Text
  pub url : Text
  pub snippet : Text
  pub score : ℕ

pub record WebSearchInput : Type 0 where
  pub query : Text
  pub max_results : ℕ

-- An item of Tavily's reply: an object with some fields, or something else.
pub data TavilyItem : Type 0 where
  tavily_object : Option Text → Option Text → Option Text → Option ℕ → TavilyItem
  no_object : TavilyItem

pub record LangSearchInput : Type 0 where
  pub query : Text
  pub count : ℕ
  pub freshness : Text
  pub summary : Bool

-- A page of LangSearch's reply; a snippet that is null or empty counts as missing.
pub record LangPage : Type 0 where
  pub page_name : Option Text
  pub page_url : Option Text
  pub page_snippet : Option Text
  pub page_summary : Option Text

-- The JSON of a reply: an object with its web pages, under `data` or at the top, or none at all.
pub data LangReply : Type 0 where
  under_data at_top : Option (List LangPage) → LangReply
  no_json_object : LangReply

abbrev pub text_or_empty : Option Text → Text
text_or_empty none = []
text_or_empty (some text) = text

abbrev pub score_or_zero : Option ℕ → ℕ
score_or_zero none = 0
score_or_zero (some score) = score

abbrev pub is_key : Option String → Bool
is_key none = false
is_key (some key) = not (str_eq key "")

unfoldable pub tavily_results : List TavilyItem → List SearchResult
tavily_results [] = []
tavily_results (no_object ∷ items) = tavily_results items
tavily_results (tavily_object title url content score ∷ items) =
    record {
      title = text_or_empty title;
      url = text_or_empty url;
      snippet = text_or_empty content;
      score = score_or_zero score;
    }
    ∷ tavily_results items

-- `item.get("snippet") or item.get("summary", "")`.
abbrev pub snippet_of : Option Text → Option Text → Text
snippet_of none summary = text_or_empty summary
snippet_of (some snippet) summary = if is_empty snippet then text_or_empty summary else snippet

unfoldable pub lang_results : List LangPage → List SearchResult
lang_results [] = []
lang_results (page ∷ pages) =
    record {
      title = text_or_empty page.page_name;
      url = text_or_empty page.page_url;
      snippet = snippet_of page.page_snippet page.page_summary;
      score = 0;
    }
    ∷ lang_results pages

abbrev pub pages_or_none : Option (List LangPage) → List LangPage
pages_or_none none = []
pages_or_none (some pages) = pages

module _ {W : Type 0} (tavily : Text → ℕ → Action W (List TavilyItem))
    (langsearch : LangSearchInput → Action W LangReply) where
  -- `WebSearchTool.execute`, with the key of the settings.
  unfoldable pub web_search : Option String → WebSearchInput → Action W (List SearchResult)
  web_search api_key tool_input = do
    raise_if (not (is_key api_key)) tool_error
    raw ← tavily tool_input.query tool_input.max_results
    pure (tavily_results raw)

  abbrev pub results_in : LangReply → Action W (List SearchResult)
  results_in (under_data pages) = pure (lang_results (pages_or_none pages))
  results_in (at_top pages) = pure (lang_results (pages_or_none pages))
  results_in no_json_object = raise other_exception

  -- `LangSearchTool.execute`, likewise.
  unfoldable pub lang_search : Option String → LangSearchInput → Action W (List SearchResult)
  lang_search api_key tool_input = do
    raise_if (not (is_key api_key)) tool_error
    reply ← langsearch tool_input
    results_in reply
