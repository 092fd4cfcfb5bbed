-- ===== src/Effects/Keeps.antt =====
-- Invariants of the tables: what a handler keeps, whether it returns or raises, by rules for the
-- combinators.
use messenger_backend.Base.{Bool, true, false, Option, none, some, List, [], ◌∷◌, if◌then◌else◌}
use messenger_backend.Database.Tables.{Db}
use messenger_backend.Redis.Events.{RedisEvent, EventDict, to_dict}
use messenger_backend.Effects.{
  Exn, Result, ok, err, World, M, continue, Task, pure, raise, gets, handle, recover, ◌>>=◌, ◌>>◌,
  raise_if, connection, transaction, committed, from_driver, append_stream, RedisFault,
  publish_stream_event, spawn_task,
}

pub record Keeps (P : Db → Type 0) {A : Type 0} (m : M A) : Type 0 where
  pub at : (w : World) → P w.db → P (m w).1.db

module _ (P : Db → Type 0) {A : Type 0} where
  recovered : (f : Exn → Result A) (r : Result A × World) → P r.1.db → P (recover f r).1.db
  recovered f (ok a, w) h = h
  recovered f (err e, w) h = h

  committed_keeps :
      (before : World) (r : Result A × World) → P before.db → P r.1.db → P (committed before r).1.db
  committed_keeps before (ok a, w) b h = h
  committed_keeps before (err e, w) b h = b

append_stream_keeps :
    (P : Db → Type 0) (l : List (Option RedisFault)) (d : EventDict) (w : World)
    → P w.db
    → P (append_stream l d w).1.db
append_stream_keeps P [] d w h = h
append_stream_keeps P (none ∷ rest) d w h = h
append_stream_keeps P (some fault ∷ rest) d w h = h

module _ {P : Db → Type 0} {A : Type 0} where
  pub Keeps-pure : (a : A) → Keeps P (pure a)
  unfolding pure
  Keeps-pure a = record { at = λ w h. h }

  pub Keeps-raise : (e : Exn) → Keeps P (raise {A = A} e)
  unfolding raise
  Keeps-raise e = record { at = λ w h. h }

  pub Keeps-gets : (f : World → A) → Keeps P (gets f)
  unfolding gets
  Keeps-gets f = record { at = λ w h. h }

  pub Keeps-handle : (f : Exn → Result A) {m : M A} → Keeps P m → Keeps P (handle f m)
  unfolding handle
  Keeps-handle f {m} k = record { at = λ w h. recovered P f (m w) (k.at w h) }

  pub Keeps-connection : {m : M A} → Keeps P m → Keeps P (connection m)
  unfolding connection
  Keeps-connection k = Keeps-handle _ k

  pub Keeps-transaction : {m : M A} → Keeps P m → Keeps P (transaction m)
  unfolding transaction
  Keeps-transaction {m} k =
      Keeps-handle (from_driver {A = A}) {m = λ w. committed w (m w)}
        (record { at = λ w h. committed_keeps P w (m w) h (k.at w h) })

  pub Keeps-if : (b : Bool) {m k : M A} → Keeps P m → Keeps P k → Keeps P (if b then m else k)
  Keeps-if true m k = m
  Keeps-if false m k = k

module _ {P : Db → Type 0} {A B : Type 0} where
  bound :
      (r : Result A × World) (f : A → M B)
      → ((a : A) → Keeps P (f a))
      → P r.1.db
      → P (continue f r).1.db
  unfolding ◌>>=◌
  bound (ok a, w) f k h = (k a).at w h
  bound (err e, w) f k h = h

  pub Keeps-bind :
      {m : M A} {f : A → M B} → Keeps P m → ((a : A) → Keeps P (f a)) → Keeps P (m >>= f)
  unfolding ◌>>=◌
  Keeps-bind {m} {f} k ks = record { at = λ w h. bound (m w) f ks (k.at w h) }

  pub Keeps-then : {m : M A} {n : M B} → Keeps P m → Keeps P n → Keeps P (m >> n)
  unfolding ◌>>◌
  Keeps-then k ks = Keeps-bind k (λ a. ks)

module _ {P : Db → Type 0} where
  pub Keeps-raise_if : (b : Bool) (e : Exn) → Keeps P (raise_if b e)
  unfolding raise_if
  Keeps-raise_if b e = record { at = λ w h. h }

  pub Keeps-publish : (e : RedisEvent) → Keeps P (publish_stream_event e)
  unfolding publish_stream_event
  Keeps-publish e = record { at = λ w h. append_stream_keeps P w.faults (to_dict e) w h }

  pub Keeps-spawn_task : (t : Task) → Keeps P (spawn_task t)
  unfolding spawn_task
  Keeps-spawn_task t = record { at = λ w h. h }

pub ruleset keeps_rules = (
  Keeps-pure, Keeps-raise, Keeps-gets, Keeps-handle, Keeps-connection, Keeps-transaction,
  Keeps-bind, Keeps-then, Keeps-raise_if, Keeps-publish, Keeps-spawn_task,
)
