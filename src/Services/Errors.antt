-- ===== src/Services/Errors.antt =====
-- The exceptions of src/services/errors.py and their status codes.
use messenger_backend.Base.{ℕ, String}
use messenger_backend.Database.Errors.{Value}

pub data ServiceError : Type 0 where
  user_already_exists : Value → ServiceError
  invalid_credentials invalid_token token_expired token_revoked : ServiceError
  user_not_found : Value → ServiceError
  self_friendship : ServiceError
  friend_request_already_exists friend_request_not_found : Value → ServiceError
  group_not_found : Value → ServiceError
  group_name_already_exists : Value → Value → ServiceError
  already_group_member not_group_member : Value → Value → ServiceError
  insufficient_group_permission : String → ServiceError
  direct_message_not_allowed group_message_not_allowed : Value → ServiceError

abbrev pub status_code : ServiceError → ℕ
status_code (user_already_exists _) = 409
status_code invalid_credentials = 401
status_code invalid_token = 401
status_code token_expired = 401
status_code token_revoked = 401
status_code (user_not_found _) = 404
status_code self_friendship = 400
status_code (friend_request_already_exists _) = 409
status_code (friend_request_not_found _) = 404
status_code (group_not_found _) = 404
status_code (group_name_already_exists _ _) = 409
status_code (already_group_member _ _) = 409
status_code (not_group_member _ _) = 403
status_code (insufficient_group_permission _) = 403
status_code (direct_message_not_allowed _) = 403
status_code (group_message_not_allowed _) = 403
