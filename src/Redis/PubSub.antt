-- ===== src/Redis/PubSub.antt =====
-- The cluster's channel: `publish_ws_push` and `listen_and_dispatch_message` of src/redis/pubsub.py,
-- one step for each thing that the listener sees.
pub mod Delivery
use messenger_backend.Base.{◌≡◌, Option, none, some, List, [], ◌∷◌, ◌++◌}
use messenger_backend.Redis.Events.{Payload}

-- What `json.loads` makes of the data of a message.
pub data Message : Type 0 where
  json : Payload → Message
  malformed : Message

-- All messages ever published, those that Redis holds for the listener's subscription, if it has
-- one, and the payloads for which a task was spawned.
pub record Channel : Type 0 where
  pub history : List Message
  pub inbox : Option (List Message)
  pub dispatched : List Payload

-- Redis keeps a message for those who are subscribed.
abbrev pub arrived : Message → Option (List Message) → Option (List Message)
arrived m none = none
arrived m (some l) = some (l ++ m ∷ [])

-- A malformed message is logged.
abbrev pub payloads : Message → List Payload
payloads malformed = []
payloads (json p) = p ∷ []

-- The body of the loop over `pubsub.listen()`.
unfoldable pub receive : Message → List Message → Channel → Channel
receive m rest c = record c { inbox = some rest; dispatched = c.dispatched ++ payloads m }

pub data Step (c : Channel) : Channel → Type 0 where
  published :
      (m : Message) → Step c (record c { history = c.history ++ m ∷ []; inbox = arrived m c.inbox })
  subscribed : c.inbox ≡ none → Step c (record c { inbox = some [] })
  received :
      (m : Message) (rest : List Message) → c.inbox ≡ some (m ∷ rest) → Step c (receive m rest c)
  -- The connection fails: the listener unsubscribes, and what it has not read is lost.
  dropped : Step c (record c { inbox = none })

pub data Steps (c : Channel) : Channel → Type 0 where
  here : Steps c c
  next : {d e : Channel} → Steps c d → Step d e → Steps c e

-- A listener that starts.
abbrev pub begins : List Message → Channel
begins history = record { history = history; inbox = none; dispatched = [] }
