-- ===== src/Config/Logging/Agreement.antt =====
-- Both formatters of src/config/logging.py show a filtered record with the same request.
use messenger_backend.Base.{
  ◌≡◌, refl, true, false, String, Option, none, some, List, [], ◌∷◌, arith, str_eq, if◌then◌else◌,
  inl, inr, Option-cases,
}
use messenger_backend.Config.Logging.{
  LogRecord, Context, active, tag, filter, Formatting, format_standard, json_data, exception_entry,
  concat, Value, str,
}

-- `d.get(key)`
abbrev pub get : String → List (String × Value) → Option Value
get key [] = none
get key ((k, v) ∷ d) = if str_eq k key then some v else get key d

abbrev pub shown_tag : Option String → String
shown_tag none = ""
shown_tag (some req_id) = tag req_id

abbrev pub shown_id : Option String → Option Value
shown_id none = none
shown_id (some req_id) = some (str req_id)

no_id : (f : Formatting) (o : Option String) → get "request_id" (exception_entry f o) ≡ none
no_id f none = refl
no_id f (some e) = refl

active_again :
    (context : Context) (req_id : String)
    → active context ≡ some req_id
    → (str_eq req_id "" ≡ false) × (active (some req_id) ≡ some req_id)
active_again none req_id e = cc
active_again (some r) req_id e = ground arith

-- `LogContextFilter` lets every record through, and what it gives is shown with the same request by
-- both formatters: the text has the tag of the active request where the format asks for it, and the
-- dictionary has the request, or neither has any where no request is active.
pub formats_agree :
    (f : Formatting) (context : Context) (r : LogRecord)
    → let filtered = (filter context r).1 in
      ((filter context r).0 ≡ true)
      × (format_standard f filtered
          ≡ concat (
              f.format_time filtered
              ∷ " ["
              ∷ r.levelname
              ∷ "] [pid:"
              ∷ f.show r.process
              ∷ "] ["
              ∷ r.name
              ∷ "]"
              ∷ shown_tag (active context)
              ∷ " "
              ∷ f.get_message filtered
              ∷ []))
      × (get "request_id" (json_data f context filtered) ≡ shown_id (active context))
unfolding filter format_standard json_data
formats_agree f context r = elim (Option-cases (active context)) [
  | inl e ↦ rw e (refl, refl, rw e (no_id f r.exc_info))
  | inr (req_id, e) ↦
      let (nonempty, again) = active_again context req_id e in
      rw e (refl, refl, rw (nonempty, again) refl)
]
