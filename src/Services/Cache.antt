-- ===== src/Services/Cache.antt =====
-- The worker's token cache, class TokenCache of src/services/auth.py: entries by token hash, which
-- the cachetools library may drop at any time.
pub mod Invalidation
use messenger_backend.Base.{
  String, Bool, false, Option, some, [], ◌∷◌, not, ◌==◌, str_eq, if◌then◌else◌, keep,
}
use messenger_backend.Database.Models.{Uuid, User}
use messenger_backend.External.{External, Entries, entry}
use messenger_backend.Redis.Events.{EventDict, Field, text, id, get, value}
use messenger_backend.Redis.Events.{EventType}

abbrev pub clear : Entries → Entries
clear c = []

abbrev pub lookup : String → Entries → Option User
lookup token_hash c = entry token_hash c

-- `pop(token_hash, None)`
unfoldable pub evict : String → Entries → Entries
evict token_hash c = keep (λ e. not (str_eq e.0 token_hash)) c

unfoldable pub evict_user : Uuid → Entries → Entries
evict_user user_id c = keep (λ e. not (e.1.user_id == user_id)) c

unfoldable pub set : ⦃x : External⦄ → String → User → Entries → Entries
unfolding evict
set ⦃x⦄ token_hash user c = x.evict ((token_hash, user) ∷ evict token_hash c)

-- `if token_hash := …`: an empty text is passed over, and an identifier's text is no token hash.
abbrev pub evict_field : Option Field → Entries → Entries
evict_field (some (text h)) c = if str_eq h "" then c else evict h c
evict_field _ c = c

-- A text that is no identifier is that of no user.
abbrev pub evict_user_field : Option Field → Entries → Entries
evict_user_field (some (id i)) c = evict_user i c
evict_user_field _ c = c

abbrev pub is_event : EventType → Option Field → Bool
is_event t (some (text s)) = str_eq s (value t)
is_event t _ = false

unfoldable pub handle_invalidation_event : EventDict → Entries → Entries
unfolding evict evict_user
handle_invalidation_event event_dict c =
    if is_event EventType.token_revoked (get event_dict "event")
    then evict_field (get event_dict "token_hash") c
    else if is_event EventType.user_invalidated (get event_dict "event")
    then evict_user_field (get event_dict "user_id") c
    else c
