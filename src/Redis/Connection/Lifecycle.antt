-- ===== src/Redis/Connection/Lifecycle.antt =====
-- What the client of src/redis/connection.py is worth to those who ask for it.
use messenger_backend.Base.{◌≡◌, refl, sym, ap, Option, none, some, List, [], ◌∷◌, arith}
use messenger_backend.Redis.Connection.{
  Exception, translate, Outcome, returns, raises, Pool, Client, RedisManager, initial, connect_to,
  connect, without_pool, without_client, disconnect, client, or_not_initialized, Call, connects,
  disconnects, after,
}

-- A client belongs to the pool that the manager has.
abbrev pub IsPaired : Option Pool → Option Client → Type 0
IsPaired o none = Unit
IsPaired o (some c) = o ≡ some c.connection_pool

connected-IsPaired :
    (from_url : Pool) (ping : Client → Outcome (Unit {0})) (m : RedisManager) (o : Option Client)
    → o ≡ m.client
    → IsPaired m.pool m.client
    → IsPaired (connect_to o from_url ping m).1.pool (connect_to o from_url ping m).1.client
connected-IsPaired from_url ping m none e h = refl
connected-IsPaired from_url ping m (some c) e h = h

closed-IsPaired :
    (closed : Option Exception) (m : RedisManager) (o : Option Pool)
    → m.client ≡ none
    → IsPaired (without_pool o closed m).pool (without_pool o closed m).client
closed-IsPaired closed m none e = rw e tt
closed-IsPaired none m (some p) e = rw e tt
closed-IsPaired (some f) m (some p) e = rw e tt

disconnected-IsPaired :
    (aclose closed : Option Exception) (m : RedisManager) (o : Option Client)
    → o ≡ m.client
    → IsPaired m.pool m.client
    → IsPaired (without_client o aclose closed m).pool (without_client o aclose closed m).client
disconnected-IsPaired aclose closed m none e h = closed-IsPaired closed m m.pool (sym e)
disconnected-IsPaired none closed m (some c) e h =
    closed-IsPaired closed (record m { client = none }) m.pool refl
disconnected-IsPaired (some f) closed m (some c) e h = h

after-IsPaired :
    (cs : List Call) (m : RedisManager)
    → IsPaired m.pool m.client
    → IsPaired (after cs m).pool (after cs m).client
unfolding after connect disconnect
after-IsPaired [] m h = h
after-IsPaired (connects from_url ping ∷ cs) m h =
    after-IsPaired cs (connect from_url ping m).1
      (connected-IsPaired from_url ping m m.client refl h)
after-IsPaired (disconnects aclose closed ∷ cs) m h =
    after-IsPaired cs (disconnect aclose closed m)
      (disconnected-IsPaired aclose closed m m.client refl h)

-- Over any sequence of `connect` and `disconnect`, whatever redis-py answers, the client that the
-- manager gives out belongs to the pool that it will close.
pub client_has_pool :
    (cs : List Call) {c : Client}
    → client (after cs initial) ≡ returns c
    → (after cs initial).pool ≡ some c.connection_pool
unfolding client
client_has_pool cs {c} h = paired (after cs initial).client (after-IsPaired cs initial tt) h
  where
    paired :
        (o : Option Client)
        → IsPaired (after cs initial).pool o
        → or_not_initialized o ≡ returns c
        → (after cs initial).pool ≡ some c.connection_pool
    paired none p h = cc
    paired (some d) p h = ground (arith, p)

-- A first `connect` whose ping fails raises, and leaves its client in place: from then on the client
-- is given out, and every further `connect` returns it without a ping, whatever Redis would answer.
pub failed_connect_stays :
    (m : RedisManager) (from_url : Pool) (ping : Client → Outcome (Unit {0})) {e : Exception}
    → m.client ≡ none
    → ping (record { connection_pool = from_url }) ≡ raises e
    → ((connect from_url ping m).0 ≡ raises (translate e))
      × (client (connect from_url ping m).1 ≡ returns (record { connection_pool = from_url }))
      × ((p : Pool) (again : Client → Outcome (Unit {0}))
          → connect p again (connect from_url ping m).1
            ≡ (returns (record { connection_pool = from_url }), (connect from_url ping m).1))
unfolding connect client
failed_connect_stays m from_url ping h f =
    let s = ap (λ o. connect_to o from_url ping m) h in rw s (rw f refl, refl, λ p again. refl)
