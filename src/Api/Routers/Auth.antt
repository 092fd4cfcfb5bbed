-- ===== src/Api/Routers/Auth.antt =====
-- src/api/routers/auth.py.
use messenger_backend.Base.{String, Option}
use messenger_backend.Database.Models.{User}
use messenger_backend.Effects.{M, pure, ◌>>=◌}
use messenger_backend.External.{External}
use messenger_backend.Services.Auth
use messenger_backend.Services.Request.{Request, AuthConfig}
use messenger_backend.Api.Schemas.{
  RegisterRequest, LoginRequest, RefreshRequest, LogoutRequest, UserResponse, TokenPairResponse,
  AuthResponse, validate_user, validate_token_pair,
}

unfoldable pub get_me : User → M UserResponse
get_me current_user = pure (validate_user current_user)

module _ ⦃x : External⦄ where
  unfoldable pub register : AuthConfig → Request → RegisterRequest → M AuthResponse
  register settings req payload = do
    (u, t) ← Auth.register settings req payload.username payload.password
    pure (record { user = validate_user u; tokens = validate_token_pair t })

  unfoldable pub login : AuthConfig → Request → LoginRequest → M AuthResponse
  login settings req payload = do
    (u, t) ← Auth.login settings req payload.username payload.password
    pure (record { user = validate_user u; tokens = validate_token_pair t })

  unfoldable pub refresh : AuthConfig → Request → RefreshRequest → M TokenPairResponse
  refresh settings req payload = do
    token_pair ← Auth.refresh settings req payload.refresh_token
    pure (validate_token_pair token_pair)

  unfoldable pub logout : LogoutRequest → Option String → M (Unit {0})
  logout payload raw_access_token = Auth.logout payload.refresh_token raw_access_token
