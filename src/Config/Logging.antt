-- ===== src/Config/Logging.antt =====
-- src/config/logging.py: the filter that tags log records with the request of the context, and the
-- two formatters.
pub mod Agreement
use Prim.Native.String.{◌++◌ as str_append}
use messenger_backend.Base.{
  ℕ, String, Bool, true, false, Option, none, some, List, [], ◌∷◌, ◌++◌, str_eq, if◌then◌else◌,
  ◌||◌,
}
use messenger_backend.Config.Settings.{LoggingConfig}

-- What `%` makes of a message and its arguments is left to logging.
pub data Message : Type 0 where
  text : String → Message
  -- The line of `logging_middleware`: method, path, status code, and latency.
  handled : String → String → ℕ → ℕ → Message
  -- The line of `unhandled_exception_handler`.
  unhandled : String → Message

-- A logging.LogRecord. `none` is an attribute that is not there.
pub record LogRecord : Type 0 where
  pub levelname : String
  pub name : String
  pub process : ℕ
  pub message : Message
  pub exc_info : Option String
  pub req_tag : Option String
  pub request_id : Option (Option String)

-- A value of `request_id_var`.
abbrev pub Context : Type 0
Context = Option String

-- `if req_id and req_id != "system"`
abbrev pub active : Context → Option String
active none = none
active (some req_id) = if str_eq req_id "" || str_eq req_id "system" then none else some req_id

abbrev pub tag : String → String
tag req_id = str_append " [req:" (str_append req_id "]")

abbrev pub injected : Option String → LogRecord → LogRecord
injected (some req_id) r = record r { req_tag = some (tag req_id); request_id = some (some req_id) }
injected none r = record r { req_tag = some ""; request_id = some none }

-- `LogContextFilter.filter`: the record is changed in place, and always let through.
unfoldable pub filter : Context → LogRecord → Bool × LogRecord
filter context r = (true, injected (active context) r)

-- `if not hasattr(record, "req_tag")`
abbrev pub or_empty_tag : Option String → String
or_empty_tag none = ""
or_empty_tag (some t) = t

-- A value of the dictionary that `json.dumps` is given.
pub data Value : Type 0 where
  str : String → Value
  int : ℕ → Value

-- What logging.Formatter and json put in: the time of the record, the text of its message, of its
-- exception and of a number, and the text of a dictionary.
pub record Formatting : Type 0 where
  pub format_time : LogRecord → String
  pub get_message : LogRecord → String
  pub format_exception : String → String
  pub show : ℕ → String
  pub dumps : List (String × Value) → String

abbrev pub concat : List String → String
concat [] = ""
concat (s ∷ l) = str_append s (concat l)

-- `getattr(record, "request_id", None) or request_id_var.get()`
abbrev pub or_context : Option Context → Context → Context
or_context (some (some req_id)) context = if str_eq req_id "" then context else some req_id
or_context (some none) context = context
or_context none context = context

abbrev pub request_id_entry : Option String → List (String × Value)
request_id_entry none = []
request_id_entry (some req_id) = ("request_id", str req_id) ∷ []

module _ (f : Formatting) where
  -- `SafeStandardFormatter.format`, which leaves the attribute on the record, with the format of
  -- `get_logging_config`.
  unfoldable pub format_standard : LogRecord → String
  format_standard r = concat (
      f.format_time r
      ∷ " ["
      ∷ r.levelname
      ∷ "] [pid:"
      ∷ f.show r.process
      ∷ "] ["
      ∷ r.name
      ∷ "]"
      ∷ or_empty_tag r.req_tag
      ∷ " "
      ∷ f.get_message r
      ∷ [])

  abbrev pub exception_entry : Option String → List (String × Value)
  exception_entry none = []
  exception_entry (some e) = ("exception", str (f.format_exception e)) ∷ []

  -- The dictionary of `JSONFormatter.format`.
  unfoldable pub json_data : Context → LogRecord → List (String × Value)
  json_data context r =
      ("timestamp", str (f.format_time r))
      ∷ ("level", str r.levelname)
      ∷ ("pid", int r.process)
      ∷ ("logger", str r.name)
      ∷ ("message", str (f.get_message r))
      ∷ (request_id_entry (active (or_context r.request_id context)) ++ exception_entry r.exc_info)

  unfoldable pub format_json : Context → LogRecord → String
  unfolding json_data
  format_json context r = f.dumps (json_data context r)

-- `getattr(settings.logging, "json_format", False)`: LoggingConfig has no such field.
abbrev pub use_json : LoggingConfig → Bool
use_json c = false

-- The entries of `get_logging_config` that depend on the settings, or that loggers have of their own.
pub record DictConfig : Type 0 where
  pub console_formatter : String
  pub root_level : String
  pub uvicorn_access_level : String
  pub uvicorn_error_level : String

-- `upper` is Python's `str.upper`.
unfoldable pub get_logging_config : (String → String) → LoggingConfig → DictConfig
get_logging_config upper c = record {
  console_formatter = if use_json c then "json" else "standard";
  root_level = upper c.level;
  uvicorn_access_level = "WARNING";
  uvicorn_error_level = upper c.level;
}
