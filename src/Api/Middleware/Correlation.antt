-- ===== src/Api/Middleware/Correlation.antt =====
-- The replies and the log records of one request (`logging_middleware` of src/main.py) correlate.
use messenger_backend.Base.{
  ◌≡◌, refl, String, Option, none, some, List, [], ◌∷◌, ◌++◌, str_eq, All, append_assoc, sym, ap,
  ◌∙◌, if◌then◌else◌,
}
use messenger_backend.Config.Logging.{LogRecord, handled, Context, active, tag, filter}
use messenger_backend.Api.Middleware.{
  Exchange, Application, Worker, Reply, Response, response, raised, filtered, given_or, answered,
  reset, log, record_of, unhandled_exception_handler, logging_middleware, serve,
}

abbrev pub header : String → List (String × String) → Option String
header key [] = none
header key ((k, v) ∷ l) = if str_eq k key then some v else header key l

-- The record is tagged with the request.
abbrev pub IsTagged : String → LogRecord → Type 0
IsTagged id r = (r.req_tag ≡ some (tag id)) × (r.request_id ≡ some (some id))

filtered-IsTagged :
    (id : String) (rs : List LogRecord)
    → active (some id) ≡ some id
    → All (IsTagged id) (filtered (some id) rs)
unfolding filter
filtered-IsTagged id [] e = tt
filtered-IsTagged id (r ∷ rs) e = (rw e (refl, refl), filtered-IsTagged id rs e)

-- What a request leaves, by how its call ended: the records before and after it, and the response.
abbrev pub Correlates : String → List LogRecord → List LogRecord → Reply → Response → Type 0
Correlates id before after (response r) sent =
    (header "x-request-id" sent.headers ≡ some id)
    × (sent.status_code ≡ r.status_code)
    × (new : List LogRecord) × (after ≡ before ++ new)
    × All (IsTagged id) new
Correlates id before after (raised e) sent =
    (header "x-request-id" sent.headers ≡ none)
    × (sent.status_code ≡ 500)
    × (new : List LogRecord) × (last : LogRecord) × (after ≡ before ++ (new ++ last ∷ []))
    × All (IsTagged id) new
    × (last.req_tag ≡ some "")
    × (last.exc_info ≡ some e)

filtered-append :
    (c : Context) (l m : List LogRecord) → filtered c (l ++ m) ≡ filtered c l ++ filtered c m
filtered-append c [] m = refl
filtered-append c (r ∷ l) m = ap (λ k. (filter c r).1 ∷ k) (filtered-append c l m)

module _ (x : Exchange) (id : String) (logged : List LogRecord) (w : Worker)
    (e : active (some id) ≡ some id) where
  -- The worker once `call_next` has ended.
  abbrev inside : Worker
  inside = log logged (record w { request_id = some id })

  abbrev summary : Response → LogRecord
  summary r = record_of w.process "INFO" (handled x.method x.path r.status_code x.process_time) none

  answered-Correlates :
      (r : Reply)
      → w.request_id ≡ none
      → let sent = unhandled_exception_handler (reset w.request_id (answered x id r inside)) in
        (sent.1.request_id ≡ none) × Correlates id w.console sent.1.console r sent.0
  unfolding filter
  answered-Correlates (response r) clear = (
    clear,
    (
      refl,
      refl,
      filtered (some id) (logged ++ summary r ∷ []),
      append_assoc w.console _ _
          ∙ ap (λ l. w.console ++ l) (sym (filtered-append (some id) logged _)),
      filtered-IsTagged id (logged ++ summary r ∷ []) e,
    ),
  )
  answered-Correlates (raised f) clear = (
    clear,
    (
      refl,
      refl,
      filtered (some id) logged,
      _,
      append_assoc w.console _ _,
      filtered-IsTagged id logged e,
      rw clear refl,
      rw clear refl,
    ),
  )

-- The middleware reads the identifier of the request, and answers with it; an identifier that is
-- neither empty nor "system" tags every record of the call. An exception that no handler inside of
-- the middleware takes is answered with 500 and without the identifier, and logged without its tag.
-- The context variable is restored either way.
pub request-Correlates :
    (x : Exchange) (call_next : Application) (w : Worker)
    → w.request_id ≡ none
    → active (some (given_or x.header x.fresh)) ≡ some (given_or x.header x.fresh)
    → ((serve x call_next w).1.request_id ≡ none)
      × Correlates
          (given_or x.header x.fresh)
          w.console
          (serve x call_next w).1.console
          (call_next (some (given_or x.header x.fresh))).0
          (serve x call_next w).0
unfolding serve logging_middleware
request-Correlates x call_next w clear e =
    let (reply, logged) = call_next (some (given_or x.header x.fresh)) in
    answered-Correlates x (given_or x.header x.fresh) logged w e reply clear
