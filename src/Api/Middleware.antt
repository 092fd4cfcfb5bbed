-- ===== src/Api/Middleware.antt =====
-- `logging_middleware` of src/main.py around the application, the context variable of
-- src/config/logging.py, and the handler of unhandled exceptions, which is outside of the middleware.
pub mod Correlation
use messenger_backend.Base.{
  ℕ, String, Option, none, some, List, [], ◌∷◌, ◌++◌, map, str_eq, if◌then◌else◌,
}
use messenger_backend.Config.Logging.{LogRecord, Message, handled, unhandled, Context, filter}

-- Starlette keeps the names of headers in lower case.
pub record Response : Type 0 where
  pub status_code : ℕ
  pub headers : List (String × String)

-- How `call_next` ends, where an exception is what no handler inside of the middleware has taken.
pub data Reply : Type 0 where
  response : Response → Reply
  raised : String → Reply

-- What `call_next` does: it sees the context, and gives its reply and the records it has logged.
abbrev pub Application : Type 0
Application = Context → Reply × List LogRecord

pub record Exchange : Type 0 where
  pub method : String
  pub path : String
  -- The header X-Request-ID.
  pub header : Option String
  -- `str(uuid_v4())[:8]`
  pub fresh : String
  pub process_time : ℕ

-- The identifier of the process, the value of `request_id_var`, and the records that the console handler was given, after the filter.
pub record Worker : Type 0 where
  pub process : ℕ
  pub request_id : Context
  pub console : List LogRecord

abbrev pub filtered : Context → List LogRecord → List LogRecord
filtered context [] = []
filtered context (r ∷ l) = (filter context r).1 ∷ filtered context l

-- A call of a logger.
abbrev pub log : List LogRecord → Worker → Worker
log rs w = record w { console = w.console ++ filtered w.request_id rs }

abbrev pub record_of : ℕ → String → Message → Option String → LogRecord
record_of process level message exc_info = record {
  levelname = level;
  name = "src.main";
  process = process;
  message = message;
  exc_info = exc_info;
  req_tag = none;
  request_id = none;
}

-- `response.headers[key] = value`: the entries of the key go, one is added.
abbrev pub without_header : String → List (String × String) → List (String × String)
without_header key [] = []
without_header key ((k, v) ∷ l) =
    let rest = without_header key l in if str_eq k key then rest else (k, v) ∷ rest

abbrev pub set_header : String → String → Response → Response
set_header key value r = record r { headers = (key, value) ∷ without_header key r.headers }

-- `headers.get("X-Request-ID") or str(uuid_v4())[:8]`
abbrev pub given_or : Option String → String → String
given_or none fresh = fresh
given_or (some id) fresh = if str_eq id "" then fresh else id

-- The body of `try`, once `call_next` has ended.
abbrev pub answered : Exchange → String → Reply → Worker → Reply × Worker
answered x req_id (response r) w = (
  response (set_header "x-request-id" req_id r),
  log (record_of w.process "INFO" (handled x.method x.path r.status_code x.process_time) none ∷ [])
      w,
)
answered x req_id (raised e) w = (raised e, w)

-- `finally`: the variable gets the value it had before.
abbrev pub reset : Context → Reply × Worker → Reply × Worker
reset before (r, w) = (r, record w { request_id = before })

unfoldable pub logging_middleware : Exchange → Application → Worker → Reply × Worker
logging_middleware x call_next w =
    let req_id = given_or x.header x.fresh in
    let (reply, logged) = call_next (some req_id) in
    reset w.request_id
      (answered x req_id reply (log logged (record w { request_id = some req_id })))

abbrev pub internal_error : Response
internal_error = record { status_code = 500; headers = [] }

-- `unhandled_exception_handler`, which Starlette calls outside of all middleware.
abbrev pub unhandled_exception_handler : Reply × Worker → Response × Worker
unhandled_exception_handler (response r, w) = (r, w)
unhandled_exception_handler (raised e, w) =
    (internal_error, log (record_of w.process "ERROR" (unhandled e) (some e) ∷ []) w)

unfoldable pub serve : Exchange → Application → Worker → Response × Worker
unfolding logging_middleware
serve x call_next w = unhandled_exception_handler (logging_middleware x call_next w)
