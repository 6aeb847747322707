-- ===== src/Plugins/Http.antt =====
-- examples/http-plugin/src/index.ts. `fetch`, with what `json()` makes of a body, is a parameter; a
-- handler that returns answers with the case "ok".
use ts_plugins.Common.{ℕ, Option, none, some, [], Text}
use ts_plugins.Plugins.{InitSuccess, or_else}

-- A response's status, and the title and the body of its JSON.
pub record FetchedTodo : Type 0 where
  pub status : ℕ
  pub title : Option Text
  pub body : Option Text

pub record Todo : Type 0 where
  pub status : ℕ
  pub title : Text
  pub body : Text

unfoldable pub init : Text → Text → InitSuccess
init id version = record { plugin_name = id; plugin_version = version }

abbrev pub answer_todo : Option FetchedTodo → Option Todo
answer_todo none = none
answer_todo (some response) = some (record {
  status = response.status;
  title = or_else [] response.title;
  body = or_else [] response.body;
})

-- `fetchTodo`; `none` is that `fetch` or `json()` throws.
unfoldable pub fetch_todo : (Text → Option FetchedTodo) → Text → Option Todo
fetch_todo fetch url = answer_todo (fetch url)
