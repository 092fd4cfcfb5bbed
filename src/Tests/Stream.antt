-- ===== src/Tests/Stream.antt =====
-- Witnesses on the system stream.
use messenger_backend.Base.{refl, some, [], ◌∷◌, arith}
use messenger_backend.Redis.Events.{EventDict, to_dict, user_invalidated_event, token_revoked_event}
use messenger_backend.Redis.Stream.{
  System, process, published, asked, answered, Steps, here, next, begins,
}
use messenger_backend.Redis.Stream.Segments.{IsFollowing}
use messenger_backend.Redis.Stream.Listener.{listener_follows}

abbrev old : EventDict
old = to_dict (user_invalidated_event 1)

abbrev new : EventDict
new = to_dict (token_revoked_event "b1")

abbrev waiting : System
waiting = record (begins (old ∷ []) 0) { pending = some 1 }

abbrev sent : System
sent = record waiting { history = old ∷ new ∷ [] }

-- The listener asks, an event is published, and the listener is answered; then another comes.
abbrev heard : System
heard = process 1 sent

hears : Steps (begins (old ∷ []) 0) heard
hears = next (next (next here (asked refl)) (published new)) (answered 1 refl)

listener_follows_example : IsFollowing 1 heard
unfolding hears
listener_follows_example = listener_follows (old ∷ []) 0 hears (ground arith) ((((tt, tt), tt), tt))
