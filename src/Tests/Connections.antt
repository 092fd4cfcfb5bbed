-- ===== src/Tests/Connections.antt =====
-- Witnesses on database connections and on rows.
use messenger_backend.Base.{
  ℕ, true, false, ◌≡◌, ◌≤◌, ◌↔◌, refl, some, none, [], ◌∷◌, ltb, if◌then◌else◌,
}
use messenger_backend.Database.Connection
use messenger_backend.Database.Connection.{
  Created, opened, os_error, DatabaseManager, Conn, max_attempts, transaction,
}
use messenger_backend.Database.Connection.Outcomes.{
  EndsWith, Holds, IsCaught, connect_outcome, transaction_outcome,
}
use messenger_backend.Database.Records.{
  Record, DbModel, text, access_token, Defaults, access_token_class,
}
use messenger_backend.Database.Records.Conversion.{from_record, update_from_record}
use messenger_backend.Database.Records.RoundTrip.{stored, read_back}
use messenger_backend.Tests.Sample.{token}

-- PostgreSQL comes up before the fourth call.
abbrev create_pool : ℕ → Created
create_pool n = if ltb n 3 then os_error else opened 1

connect_outcome_example :
    EndsWith create_pool 0 max_attempts (Connection.connect create_pool Connection.initial).0
    × ((Connection.connect create_pool Connection.initial).0.1 ≤ max_attempts)
    × Holds
        (Connection.connect create_pool Connection.initial).0.0
        (Connection.connect create_pool Connection.initial).1
connect_outcome_example = connect_outcome create_pool Connection.initial refl

-- A pool that hands out connection 7, a transaction on it that fails to serialize.
abbrev ready : DatabaseManager
ready = record { pool = some 1 }

abbrev conflict : Connection.Outcome ℕ
conflict = Connection.raises (Connection.driver Connection.serialization_error)

transaction_outcome_example :
    ((a : ℕ)
      → (transaction ready (λ p. Connection.returns 7) (λ c body. body c) none (λ c. conflict)
          ≡ Connection.returns a)
        ↔ (conflict ≡ Connection.returns a))
    × (conflict ≡ Connection.raises (Connection.driver Connection.serialization_error)
        → transaction ready (λ p. Connection.returns 7) (λ c body. body c) none (λ c. conflict)
          ≡ Connection.raises (Connection.database Connection.serialization_conflict))
    × ((e : Connection.Exception)
        → transaction ready (λ p. Connection.returns 7) (λ c body. body c) none (λ c. conflict)
          ≡ Connection.raises e
        → ¬ IsCaught e)
    × ((e : Connection.Exception)
        → ¬ IsCaught e
        → conflict ≡ Connection.raises e
        → transaction ready (λ p. Connection.returns 7) (λ c body. body c) none (λ c. conflict)
          ≡ Connection.raises e)
transaction_outcome_example =
    transaction_outcome ready (λ p. Connection.returns 7) (λ c body. body c) (λ c. conflict) {p = 1}
      {c = 7} refl refl

abbrev defaults : Defaults
defaults = record { uuid_v4 = 9; current_ts = 10 }

-- The table of access tokens has its columns in another order than the class.
-- What was there before the row was read.
abbrev old : DbModel
old = access_token (token "a0" 2 true 0)

abbrev row : Record
row =
    ("issuer", text "test")
    ∷ stored (access_token (token "a1" 1 false 40))
        ("token_hash" ∷ "user_id" ∷ "is_revoked" ∷ "expires_at" ∷ [])

read_back_example :
    (from_record defaults access_token_class row ≡ some (access_token (token "a1" 1 false 40)))
    × (update_from_record defaults old row ≡ some (access_token (token "a1" 1 false 40)))
read_back_example =
    read_back defaults (access_token (token "a1" 1 false 40)) old
      ("token_hash" ∷ "user_id" ∷ "is_revoked" ∷ "expires_at" ∷ []) (("issuer", text "test") ∷ [])
      refl refl (refl, tt)
