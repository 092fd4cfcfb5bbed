-- ===== src/Redis/PubSub/Delivery.antt =====
-- What reaches the handler of src/redis/pubsub.py.
use messenger_backend.Base.{
  ◌≡◌, sym, Option, none, some, List, [], ◌∷◌, ◌++◌, append_assoc, append-nil, ◌∙◌, ap,
}
use messenger_backend.Redis.Events.{Payload}
use messenger_backend.Redis.PubSub.{
  Message, Channel, arrived, payloads, receive, Step, published, subscribed, received, dropped,
  Steps, here, next, begins,
}

-- The first list is the second with some entries left out.
pub data IsSublist {A : Type 0} : List A → List A → Type 0 where
  nothing : IsSublist [] []
  left_out : {a : A} {l m : List A} → IsSublist l m → IsSublist l (a ∷ m)
  kept : {a : A} {l m : List A} → IsSublist l m → IsSublist (a ∷ l) (a ∷ m)

module _ {A : Type 0} where
  nil-IsSublist : (m : List A) → IsSublist [] m
  nil-IsSublist [] = nothing
  nil-IsSublist (a ∷ m) = left_out (nil-IsSublist m)

  same-IsSublist : (l : List A) → IsSublist l l
  same-IsSublist [] = nothing
  same-IsSublist (a ∷ l) = kept (same-IsSublist l)

  append-IsSublist :
      {l m : List A} (j k : List A) → IsSublist l m → IsSublist j k → IsSublist (l ++ j) (m ++ k)
  append-IsSublist j k nothing i = i
  append-IsSublist j k (left_out h) i = left_out (append-IsSublist j k h i)
  append-IsSublist j k (kept h) i = kept (append-IsSublist j k h i)

  first-IsSublist : (l j m : List A) → IsSublist (l ++ j) m → IsSublist l m
  first-IsSublist [] j m h = nil-IsSublist m
  first-IsSublist (a ∷ l) j [] h = elim h [ ]
  first-IsSublist (a ∷ l) j (b ∷ m) (left_out h) = left_out (first-IsSublist (a ∷ l) j m h)
  first-IsSublist (a ∷ l) j (b ∷ m) (kept h) = kept (first-IsSublist l j m h)

abbrev pub all_payloads : List Message → List Payload
all_payloads [] = []
all_payloads (m ∷ l) = payloads m ++ all_payloads l

abbrev pub waiting : Option (List Message) → List Payload
waiting none = []
waiting (some l) = all_payloads l

all_payloads-append :
    (l : List Message) (m : Message) → all_payloads (l ++ m ∷ []) ≡ all_payloads l ++ payloads m
all_payloads-append [] m = append-nil (payloads m)
all_payloads-append (k ∷ l) m =
    ap (λ r. payloads k ++ r) (all_payloads-append l m)
    ∙ sym (append_assoc (payloads k) (all_payloads l) (payloads m))

-- What was dispatched, and then what waits, is the history with some messages left out.
abbrev pub IsDelivered : Channel → Type 0
IsDelivered c = IsSublist (c.dispatched ++ waiting c.inbox) (all_payloads c.history)

published-IsDelivered :
    (m : Message) (h : List Message) (ds : List Payload) (inbox : Option (List Message))
    → IsSublist (ds ++ waiting inbox) (all_payloads h)
    → IsSublist (ds ++ waiting (arrived m inbox)) (all_payloads (h ++ m ∷ []))
published-IsDelivered m h ds none i =
    rw (all_payloads-append h m, sym (append-nil (ds ++ [])))
      (append-IsSublist [] (payloads m) i (nil-IsSublist (payloads m)))
published-IsDelivered m h ds (some l) i =
    rw
      (
        all_payloads-append h m,
        all_payloads-append l m,
        sym (append_assoc ds (all_payloads l) (payloads m)),
      )
      (append-IsSublist (payloads m) (payloads m) i (same-IsSublist (payloads m)))

Step-IsDelivered : {c d : Channel} → Step c d → IsDelivered c → IsDelivered d
unfolding receive
Step-IsDelivered {c} (published m) i = published-IsDelivered m c.history c.dispatched c.inbox i
Step-IsDelivered {c} (subscribed e) i = rw e at i
Step-IsDelivered {c} (received m rest e) i =
    rw (append_assoc c.dispatched (payloads m) (all_payloads rest)) (rw e at i)
Step-IsDelivered {c} dropped i =
    rw (append-nil c.dispatched)
      (first-IsSublist c.dispatched (waiting c.inbox) (all_payloads c.history) i)

Steps-IsDelivered : {c d : Channel} → Steps c d → IsDelivered c → IsDelivered d
Steps-IsDelivered here i = i
Steps-IsDelivered (next ss st) i = Step-IsDelivered st (Steps-IsDelivered ss i)

-- The channel delivers at most once. Whatever connections fail, the payloads that the listener has
-- dispatched are those that were published, in the order of their publication, with some left out and
-- none twice.
pub dispatched_once :
    (h : List Message) {c : Channel}
    → Steps (begins h) c
    → IsSublist c.dispatched (all_payloads c.history)
dispatched_once h {c} ss =
    first-IsSublist c.dispatched (waiting c.inbox) (all_payloads c.history)
      (Steps-IsDelivered ss (nil-IsSublist (all_payloads h)))
