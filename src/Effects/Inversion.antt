-- ===== src/Effects/Inversion.antt =====
-- What a handler that returned has gone through: the combinators, read backwards.
use messenger_backend.Base.{
  ◌≡◌, ◌≢◌, ap, refl, Bool, true, false, Option, none, some, List, [], ◌∷◌, arith,
}
use messenger_backend.Redis.Events.{RedisEvent, EventDict, to_dict}
use messenger_backend.Effects.{
  Exn, integrity, Result, ok, err, World, M, continue, RedisFault, recover, handle, ◌>>=◌, ◌>>◌,
  raise_if, connection, transaction, committed, from_driver, append_stream, publish_stream_event,
}

-- A handler of errors that only raises.
abbrev pub OnlyRaises : {A : Type 0} → (Exn → Result A) → Type 0
OnlyRaises {A} f = (e : Exn) (a : A) → f e ≢ ok a

module _ {A : Type 0} where
  recovered :
      (f : Exn → Result A) (r : Result A × World) {a : A} {w' : World}
      → OnlyRaises f
      → recover f r ≡ (ok a, w')
      → r ≡ (ok a, w')
  recovered f (ok b, w) only h = h
  recovered f (err e, w) {a} only h = absurd (only e a (ap (λ (r : Result A × World). r.0) h))

  pub handle-ok :
      (f : Exn → Result A) (m : M A) (w : World) {a : A} {w' : World}
      → OnlyRaises f
      → handle f m w ≡ (ok a, w')
      → m w ≡ (ok a, w')
  unfolding handle
  handle-ok f m w only h = recovered f (m w) only h

  from_driver-only : OnlyRaises (from_driver {A = A})
  from_driver-only (integrity v) a h = cc
  from_driver-only _ a h = cc

  pub connection-ok :
      (m : M A) (w : World) {a : A} {w' : World} → connection m w ≡ (ok a, w') → m w ≡ (ok a, w')
  unfolding connection
  connection-ok m w h = handle-ok from_driver m w from_driver-only h

  was_committed :
      (before : World) (r : Result A × World) {a : A} {w' : World}
      → committed before r ≡ (ok a, w')
      → r ≡ (ok a, w')
  was_committed before (ok b, w) h = h
  was_committed before (err e, w) h = cc

  pub transaction-ok :
      (m : M A) (w : World) {a : A} {w' : World} → transaction m w ≡ (ok a, w') → m w ≡ (ok a, w')
  unfolding transaction
  transaction-ok m w h = was_committed w (m w) (connection-ok (λ v. committed v (m v)) w h)

module _ {A B : Type 0} where
  bound :
      (r : Result A × World) (f : A → M B) {b : B} {w' : World}
      → continue f r ≡ (ok b, w')
      → (a : A) × (v : World) × (r ≡ (ok a, v)) × (f a v ≡ (ok b, w'))
  unfolding ◌>>=◌
  bound (ok a, v) f h = (a, v, refl, h)
  bound (err e, v) f h = cc

  pub >>=-ok :
      (m : M A) (f : A → M B) (w : World) {b : B} {w' : World}
      → (m >>= f) w ≡ (ok b, w')
      → (a : A) × (v : World) × (m w ≡ (ok a, v)) × (f a v ≡ (ok b, w'))
  unfolding ◌>>=◌
  >>=-ok m f w h = bound (m w) f h

  pub >>-ok :
      (m : M A) (n : M B) (w : World) {b : B} {w' : World}
      → (m >> n) w ≡ (ok b, w')
      → (a : A) × (v : World) × (m w ≡ (ok a, v)) × (n v ≡ (ok b, w'))
  unfolding ◌>>◌
  >>-ok m n w h = >>=-ok m (λ _. n) w h

  pub >>=-step :
      (m : M A) (f : A → M B) (w : World) {a : A} {v : World}
      → m w ≡ (ok a, v)
      → (m >>= f) w ≡ f a v
  unfolding ◌>>=◌
  >>=-step m f w h = ap (continue f) h

  pub >>-step :
      (m : M A) (n : M B) (w : World) {a : A} {v : World} → m w ≡ (ok a, v) → (m >> n) w ≡ n v
  unfolding ◌>>◌
  >>-step m n w h = >>=-step m (λ _. n) w h

  pub >>=-raised :
      (m : M A) (f : A → M B) (w : World) {e : Exn} {v : World}
      → m w ≡ (err e, v)
      → (m >>= f) w ≡ (err e, v)
  unfolding ◌>>=◌
  >>=-raised m f w h = ap (continue f) h

pub raise_if-ok :
    (b : Bool) (e : Exn) (w : World) {u : Unit {0}} {w' : World}
    → raise_if b e w ≡ (ok u, w')
    → (b ≡ false) × (w' ≡ w)
unfolding raise_if
raise_if-ok true e w h = ground arith
raise_if-ok false e w h = (refl, ground arith)

appended_db :
    (l : List (Option RedisFault)) (d : EventDict) (w : World) → (append_stream l d w).1.db ≡ w.db
appended_db [] d w = refl
appended_db (none ∷ rest) d w = refl
appended_db (some fault ∷ rest) d w = refl

-- Publishing leaves the tables alone, also where Redis fails.
pub db-publish : (e : RedisEvent) (w : World) → (publish_stream_event e w).1.db ≡ w.db
unfolding publish_stream_event
db-publish e w = appended_db w.faults (to_dict e) w
