-- ===== src/Tests/Clients.antt =====
-- Witnesses on the Redis client, and on a worker from its start to its end.
use messenger_backend.Base.{ℕ, List, ◌==◌, if◌then◌else◌, ◌≡◌, refl}
use messenger_backend.Redis.Connection.{Outcome, returns, connect, client}
use messenger_backend.Database.Connection
use messenger_backend.Api.Lifespan.{Application, running, startup}
use messenger_backend.Api.Lifespan.Restored.{IsClosing, shutdown_restores}

-- PostgreSQL answers the second call, Redis the ping.
abbrev create_pool : ℕ → Connection.Created
create_pool n = if n == 0 then Connection.os_error else Connection.opened 4

abbrev worker : Application
worker = (startup create_pool (Connection.returns tt) 1 (λ c. returns tt)).1

starts :
    startup create_pool (Connection.returns tt) 1 (λ c. returns tt)
    ≡ (running (record { connection_pool = 1 }), worker)
unfolding startup Connection.connect connect client
starts = refl

shutdown_restores_example :
    (◌≡◌ {A = Outcome (Unit {0})} (returns tt) (returns tt))
    × ((b : List ℕ) → IsClosing (record { connection_pool = 1 }) worker b)
shutdown_restores_example =
    shutdown_restores create_pool (Connection.returns tt) 1 (λ c. returns tt) starts
