-- ===== src/Services/Request.antt =====
-- What one request reads from outside: the clock (src/utils/timestamps.py), a fresh identifier
-- (src/utils/generators.py), two random tokens (src/crypto/tokens.py) and a password salt. A request
-- reads each once. `AuthConfig` is that of src/config/settings.py.
use messenger_backend.Base.{ℕ, String, ◌+◌}
use messenger_backend.Database.Models.{Uuid, Timestamp}

pub record Request : Type 0 where
  pub current_ts : Timestamp
  pub uuid_v4 : Uuid
  pub access_token : String
  pub refresh_token : String
  pub salt : ℕ

pub record AuthConfig : Type 0 where
  pub access_token_ttl : ℕ
  pub refresh_token_ttl : ℕ

abbrev pub expiration_ts : Request → ℕ → Timestamp
expiration_ts req ttl = req.current_ts + ttl

pub record TokenPair : Type 0 where
  pub access_token : String
  pub refresh_token : String
  pub access_token_expires_at : Timestamp
  pub refresh_token_expires_at : Timestamp

-- `TokenPair.generate`, with the configured lifetimes.
abbrev pub generate_token_pair : AuthConfig → Request → TokenPair
generate_token_pair settings req = record {
  access_token = req.access_token;
  refresh_token = req.refresh_token;
  access_token_expires_at = expiration_ts req settings.access_token_ttl;
  refresh_token_expires_at = expiration_ts req settings.refresh_token_ttl;
}
