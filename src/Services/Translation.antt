-- ===== src/Services/Translation.antt =====
-- The decorators of src/services/errors.py, which turn database errors into service errors, and the
-- tables that they look up. A handler's keyword arguments are those of the decorated call.
use messenger_backend.Base.{String, Option, none, some, List, [], ◌∷◌, str_eq, if◌then◌else◌}
use messenger_backend.Database.Enums.{Entity, Constraint}
use messenger_backend.Database.Errors.{Value, unknown, text}
use messenger_backend.Effects.{
  Exn, constraint_violation, not_found, service, Result, ok, err, M, handle,
}
use messenger_backend.Services.Errors.{ServiceError}
use messenger_backend.Services.Errors

abbrev pub Kwargs : Type 0
Kwargs = List (String × Value)

-- `kw.get(key, "unknown")`
abbrev pub kw_get : Kwargs → String → Value
kw_get [] key = unknown
kw_get ((k, v) ∷ kw) key = if str_eq k key then v else kw_get kw key

-- `a or b`, where `a` is a text or the default.
abbrev pub or_else : Value → Value → Value
or_else unknown b = b
or_else (text s) b = if str_eq s "" then b else text s
or_else a b = a

abbrev pub constraint_map : Constraint → Kwargs → Option ServiceError
constraint_map Constraint.uq_users_username kw =
    some (Errors.user_already_exists (kw_get kw "username"))
constraint_map Constraint.pk_friendships kw =
    some (Errors.friend_request_already_exists (kw_get kw "addressee_id"))
constraint_map Constraint.fk_friendships_requester_id kw =
    some (Errors.user_not_found (kw_get kw "requester_id"))
constraint_map Constraint.fk_friendships_addressee_id kw =
    some (Errors.user_not_found (kw_get kw "addressee_id"))
constraint_map Constraint.fk_access_tokens_user_id kw =
    some (Errors.user_not_found (kw_get kw "user_id"))
constraint_map Constraint.fk_refresh_tokens_user_id kw =
    some (Errors.user_not_found (kw_get kw "user_id"))
constraint_map Constraint.uq_groups_created_by_name kw =
    some (Errors.group_name_already_exists (kw_get kw "creator_id") (kw_get kw "name"))
constraint_map Constraint.fk_groups_created_by kw =
    some (Errors.user_not_found (kw_get kw "user_id"))
constraint_map Constraint.fk_memberships_group_id kw =
    some (Errors.group_not_found (kw_get kw "group_id"))
constraint_map Constraint.pk_memberships kw =
    some (Errors.already_group_member (kw_get kw "user_id") (kw_get kw "group"))
constraint_map Constraint.fk_memberships_user_id kw =
    some (Errors.user_not_found (kw_get kw "user_id"))
constraint_map Constraint.fk_dm_sender_id kw = some (Errors.user_not_found (kw_get kw "sender_id"))
constraint_map Constraint.fk_dm_recipient_id kw =
    some (Errors.direct_message_not_allowed (kw_get kw "recipient_id"))
constraint_map Constraint.fk_group_messages_group_id kw =
    some (Errors.group_message_not_allowed (kw_get kw "group_id"))
constraint_map Constraint.fk_group_messages_sender_id kw =
    some (Errors.not_group_member (kw_get kw "user_id") (kw_get kw "group_id"))
constraint_map _ kw = none

abbrev pub entity_not_found_map : Entity → Value → Kwargs → Option ServiceError
entity_not_found_map Entity.user identifier kw =
    some (Errors.user_not_found (or_else identifier (kw_get kw "user_id")))
entity_not_found_map Entity.group identifier kw =
    some (Errors.group_not_found (or_else identifier (kw_get kw "group_id")))
entity_not_found_map Entity.membership identifier kw = some (
    Errors.not_group_member (or_else (kw_get kw "actor_id") (kw_get kw "user_id"))
      (kw_get kw "group_id"))
entity_not_found_map Entity.friendship identifier kw =
    some (Errors.friend_request_not_found (or_else identifier (kw_get kw "requester_id")))
entity_not_found_map _ identifier kw = none

-- An error that the tables translate is raised as a service error, any other again.
abbrev pub raise_mapped : {A : Type 0} → Option ServiceError → Exn → Result A
raise_mapped (some s) e = err (service s)
raise_mapped none e = err e

-- An override takes the place of the table's entry.
abbrev pub override : {A : Type 0} → Option A → Option A → Option A
override (some a) default = some a
override none default = default

abbrev pub on_constraint :
    {A : Type 0} → (Constraint → Option ServiceError) → Kwargs → Exn → Result A
on_constraint overrides kw (constraint_violation (some c)) =
    raise_mapped (override (overrides c) (constraint_map c kw)) (constraint_violation (some c))
on_constraint overrides kw e = err e

unfoldable pub handle_db_constraint_error :
    {A : Type 0} → (Constraint → Option ServiceError) → Kwargs → M A → M A
unfolding handle
handle_db_constraint_error overrides kw m = handle (on_constraint overrides kw) m

-- An override of a missing entity: raise a service error, or return a value in its place.
pub data Handler (A : Type 0) : Type 0 where
  raising : ServiceError → Handler A
  suppress : A → Handler A

abbrev pub run_handler : {A : Type 0} → Handler A → Result A
run_handler (raising s) = err (service s)
run_handler (suppress a) = ok a

abbrev pub missing : {A : Type 0} → Option (Handler A) → Entity → Value → Kwargs → Result A
missing (some h) entity identifier kw = run_handler h
missing none entity identifier kw =
    raise_mapped (entity_not_found_map entity identifier kw) (not_found entity identifier)

abbrev pub on_not_found : {A : Type 0} → (Entity → Option (Handler A)) → Kwargs → Exn → Result A
on_not_found overrides kw (not_found entity identifier) =
    missing (overrides entity) entity identifier kw
on_not_found overrides kw e = err e

unfoldable pub handle_db_not_found_error :
    {A : Type 0} → (Entity → Option (Handler A)) → Kwargs → M A → M A
unfolding handle
handle_db_not_found_error overrides kw m = handle (on_not_found overrides kw) m

-- No overrides.
abbrev pub no_overrides : {A B : Type 0} → A → Option B
no_overrides _ = none
