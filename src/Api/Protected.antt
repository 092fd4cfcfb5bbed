-- ===== src/Api/Protected.antt =====
-- The routes that src/api/routers gives a current user, called without a bearer token.
use messenger_backend.Base.{String, ◌≡◌, Bool, true, false, Option, none, some, str_eq, arith}
use messenger_backend.Effects.{World, effects}
use messenger_backend.External.{External}
use messenger_backend.Services.Request.{Request, AuthConfig}
use messenger_backend.Api.Dependencies.{get_current_user}
use messenger_backend.Api.Routes.{
  Route, register, login, refresh, logout, call, respond, as_current_user,
}

abbrev pub is_protected : Route → Bool
is_protected (register _) = false
is_protected (login _) = false
is_protected (refresh _) = false
is_protected (logout _) = false
is_protected _ = true

-- No `Authorization` header, or an empty token.
abbrev pub is_missing : Option String → Bool
is_missing none = true
is_missing (some t) = str_eq t ""

module _ ⦃x : External⦄ (settings : AuthConfig) (req : Request) (w : World) where
  -- A protected route that is called without a bearer token, or with an empty one, is answered by 401
  -- and no body, whatever its arguments, and changes nothing.
  pub unauthenticated_refused :
      (c : Option String) (r : Route)
      → is_missing c ≡ true
      → is_protected r ≡ true
      → respond settings (record { outside = req; credentials = c; route = r }) w
        ≡ (record { status = 401; body = none }, w)
  unfolding respond call as_current_user get_current_user effects
  unauthenticated_refused none (register _) m p = cc
  unauthenticated_refused (some t) (register _) m p = cc
  unauthenticated_refused none _ m p = ground arith
  unauthenticated_refused (some t) _ m p = ground arith
