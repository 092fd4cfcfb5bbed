-- ===== src/Tests/Channel.antt =====
-- Witnesses on the channel between workers.
use messenger_backend.Base.{refl, some, [], ◌∷◌}
use messenger_backend.Redis.Events.{Payload, group_deleted_event}
use messenger_backend.Redis.PubSub.{
  json, malformed, Channel, receive, published, subscribed, received, Steps, here, next, begins,
}
use messenger_backend.Redis.PubSub.Delivery.{IsSublist, all_payloads, dispatched_once}
use messenger_backend.Services.WebSocket.Dispatch.{unrouted}

abbrev news : Payload
news = unrouted (group_deleted_event 5)

abbrev listening : Channel
listening = record {
  history = json news ∷ malformed ∷ json news ∷ [];
  inbox = some (malformed ∷ json news ∷ []);
  dispatched = [];
}

-- One message comes before the subscription; of two that come after it one is malformed.
abbrev heard : Channel
heard = receive (json news) [] (receive malformed (json news ∷ []) listening)

hears : Steps (begins (json news ∷ [])) heard
unfolding receive
hears =
    next
      (next
        (next (next (next here (subscribed refl)) (published malformed)) (published (json news)))
        (received malformed (json news ∷ []) refl))
      (received (json news) [] refl)

dispatched_once_example : IsSublist heard.dispatched (all_payloads heard.history)
dispatched_once_example = dispatched_once (json news ∷ []) hears
