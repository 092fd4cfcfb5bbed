-- ===== src/Redis/Presence.antt =====
-- The presence counters of src/redis/queries.py: the Redis hash `active_user_counts`.
use messenger_backend.Base.{
  ℕ, zero, suc, Bool, true, false, Option, none, some, Dict, put, pop, if◌then◌else◌, List, [], ◌∷◌,
  discard, discard_at,
}
use messenger_backend.Database.Models.{Uuid}

-- A counter: `pos n` is n, `negsuc n` is -(n + 1).
pub data ℤ : Type 0 where
  pos negsuc : ℕ → ℤ

abbrev pub increment : ℤ → ℤ
increment (pos n) = pos (suc n)
increment (negsuc zero) = pos 0
increment (negsuc (suc n)) = negsuc n

abbrev pub decrement : ℤ → ℤ
decrement (pos zero) = negsuc 0
decrement (pos (suc n)) = pos n
decrement (negsuc n) = negsuc (suc n)

-- `count <= 0`
abbrev pub is_used_up : ℤ → Bool
is_used_up (pos zero) = true
is_used_up (pos (suc n)) = false
is_used_up (negsuc n) = true

abbrev pub Counts : Type 0
Counts = Dict ℤ

-- What `HINCRBY` starts from.
abbrev pub count_of : Option ℤ → ℤ
count_of none = pos 0
count_of (some c) = c

unfoldable pub add_active_user : Uuid → Counts → Counts
add_active_user user_id counts = put user_id (increment (count_of (counts user_id))) counts

-- `HINCRBY -1`, then `HDEL` if nothing is left; no other command comes between.
unfoldable pub remove_active_user : Uuid → Counts → Counts
remove_active_user user_id counts =
    let c = decrement (count_of (counts user_id)) in
    if is_used_up c then pop user_id counts else put user_id c counts

abbrev pub is_listed : Option ℤ → Bool
is_listed none = false
is_listed (some _) = true

-- Whether `get_active_users` lists the user.
abbrev pub is_active : Uuid → Counts → Bool
is_active user_id counts = is_listed (counts user_id)

-- The keys of Redis about groups: `group:{id}` with `group:{id}:members`, and the sets
-- `user:{id}:groups`. Nothing else of the program names them.
pub record GroupKeys : Type 0 where
  pub groups : List Uuid
  pub user_groups : Dict (List Uuid)

abbrev pub srem_all : Uuid → List Uuid → Dict (List Uuid) → Dict (List Uuid)
srem_all group_id [] d = d
srem_all group_id (m ∷ ms) d = srem_all group_id ms (discard_at m group_id d)

-- One transaction of Redis, as the pipeline asks for.
unfoldable pub invalidate_deleted_group_cache : Uuid → List Uuid → GroupKeys → GroupKeys
invalidate_deleted_group_cache group_id member_ids k = record {
  groups = discard group_id k.groups;
  user_groups = srem_all group_id member_ids k.user_groups;
}
