-- ===== src/Api/Routers/Messaging.antt =====
-- src/api/routers/messaging.py.
use messenger_backend.Base.{ℕ, Option, List, map}
use messenger_backend.Database.Models
use messenger_backend.Database.Models.{Uuid, Timestamp}
use messenger_backend.Effects.{M, pure, ◌>>=◌}
use messenger_backend.External.{External}
use messenger_backend.Services.Messaging
use messenger_backend.Services.Request.{Request}
use messenger_backend.Api.Schemas.{
  SendDirectMessageRequest, SendGroupMessageRequest, DirectMessageResponse, GroupMessageResponse,
  validate_direct_message, validate_group_message,
}

module _ ⦃x : External⦄ where
  unfoldable pub send_direct_message :
      Request → SendDirectMessageRequest → Models.User → M DirectMessageResponse
  send_direct_message req payload current_user = do
    dm ← Messaging.send_direct_message req current_user.user_id payload.recipient_id payload.content
    pure (validate_direct_message dm)

  unfoldable pub get_dm_history :
      Request → Uuid → Models.User → Option Timestamp → ℕ → M (List DirectMessageResponse)
  get_dm_history req recipient_id current_user before limit = do
    messages ← Messaging.get_dm_history req current_user.user_id recipient_id before limit
    pure (map validate_direct_message messages)

  unfoldable pub send_group_message :
      Request → Uuid → SendGroupMessageRequest → Models.User → M GroupMessageResponse
  send_group_message req group_id payload current_user = do
    msg ← Messaging.send_group_message req current_user.user_id group_id payload.content
    pure (validate_group_message msg)

  unfoldable pub get_group_history :
      Request → Uuid → Models.User → Option Timestamp → ℕ → M (List GroupMessageResponse)
  get_group_history req group_id current_user before limit = do
    messages ← Messaging.get_group_history req current_user.user_id group_id before limit
    pure (map validate_group_message messages)
