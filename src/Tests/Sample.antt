-- ===== src/Tests/Sample.antt =====
-- A concrete instance of what src/ relies on, and small tables.
use messenger_backend.Base.{
  ℕ, ◌≤◌, String, ◌≡◌, refl, Bool, true, false, some, List, [], ◌∷◌, ltb, str_eq, if◌then◌else◌,
  inl, inr, count, arith, Bool-cases,
}
use messenger_backend.Database.Models
use messenger_backend.Database.Models.{
  Uuid, User, Friendship, Token, Membership, DirectMessage, GroupMessage,
}
use messenger_backend.Database.Tables.{Db, IsConsistent}
use messenger_backend.Effects.{World}
use messenger_backend.External.{External, matches, mismatch, IsNewestFirst}
use messenger_backend.Services.Request.{Request, AuthConfig}

module _ {A : Type 0} (at : A → ℕ) where
  abbrev pub place : A → List A → List A
  place a [] = a ∷ []
  place a (b ∷ l) = let rest = place a l in if ltb (at a) (at b) then b ∷ rest else a ∷ b ∷ l

  abbrev pub sort : List A → List A
  sort [] = []
  sort (a ∷ l) = place a (sort l)

  place_below :
      (a b : A) (l : List A)
      → at a ≤ at b
      → IsNewestFirst at (b ∷ l)
      → IsNewestFirst at (place a l)
      → IsNewestFirst at (b ∷ place a l)
  place_below a b [] h k i = (h, tt)
  place_below a b (c ∷ l) h k i = elim (Bool-cases (ltb (at a) (at c))) [
    | inl e ↦ rw e (k.0, rw e at i)
    | inr e ↦ rw e (h, rw e at i)
  ]

  place-IsNewestFirst : (a : A) (l : List A) → IsNewestFirst at l → IsNewestFirst at (place a l)
  place-IsNewestFirst a [] h = tt
  place-IsNewestFirst a (b ∷ []) h = elim (Bool-cases (ltb (at a) (at b))) [
    | inl e ↦ rw e (ground arith, tt)
    | inr e ↦ rw e (ground arith, tt)
  ]
  place-IsNewestFirst a (b ∷ c ∷ l) h = elim (Bool-cases (ltb (at a) (at b))) [
    | inl e ↦ rw e (place_below a b (c ∷ l) (ground arith) h (place-IsNewestFirst a (c ∷ l) h.1))
    | inr e ↦ rw e (ground arith, h)
  ]

  pub sort-IsNewestFirst : (l : List A) → IsNewestFirst at (sort l)
  sort-IsNewestFirst [] = tt
  sort-IsNewestFirst (a ∷ l) = place-IsNewestFirst a (sort l) (sort-IsNewestFirst l)

  count-place : (p : A → Bool) (a : A) (l : List A) → count p (place a l) ≡ count p (a ∷ l)
  count-place p a [] = refl
  count-place p a (b ∷ l) = ground (arith, count-place p a l)

  pub count-sort : (p : A → Bool) (l : List A) → count p (sort l) ≡ count p l
  count-sort p [] = refl
  count-sort p (a ∷ l) = ground (arith, count-place p a (sort l), count-sort p l)

abbrev pub sample_digest : String → String
sample_digest t = if str_eq t "" then "-" else t

pub sample_digest_nonempty : (t : String) → str_eq (sample_digest t) "" ≡ false
sample_digest_nonempty t = elim (Bool-cases (str_eq t "")) [
  | inl e ↦ rw e refl
  | inr e ↦ rw (e, e) refl
]

instance abbrev pub sample : External
sample = record {
  report = λ c cs. c;
  report_Elem = λ c cs. inl refl;
  pick = λ f fs. f;
  pick_Elem = λ f fs. inl refl;
  order_dms = sort (λ m. m.created_at);
  order_dms_newest = sort-IsNewestFirst (λ m. m.created_at);
  order_dms_count = count-sort (λ m. m.created_at);
  order_group_messages = sort (λ m. m.created_at);
  order_group_messages_newest = sort-IsNewestFirst (λ m. m.created_at);
  order_group_messages_count = count-sort (λ m. m.created_at);
  hash_token = sample_digest;
  hash_token_nonempty = sample_digest_nonempty;
  hash = λ salt password. password;
  verify = λ hashed password. if str_eq hashed password then matches else mismatch;
  check_needs_rehash = λ hashed. some false;
  evict = λ c. c;
  evict_entry = λ k c h. h;
}

abbrev pub settings : AuthConfig
settings = record { access_token_ttl = 50; refresh_token_ttl = 500 }

abbrev pub request : Request
request = record {
  current_ts = 10;
  uuid_v4 = 7;
  access_token = "a2";
  refresh_token = "r2";
  salt = 0;
}

abbrev pub later : Request
later = record { current_ts = 20; uuid_v4 = 8; access_token = "a3"; refresh_token = "r3"; salt = 0 }

abbrev pub user : Uuid → String → Bool → User
user i name off = record {
  user_id = i;
  username = name;
  password_hash = "secret";
  deactivated = off;
  created_at = 1;
}

abbrev pub token : String → Uuid → Bool → ℕ → Token
token h i revoked at = record { token_hash = h; user_id = i; is_revoked = revoked; expires_at = at }

abbrev pub alice : User
alice = user 1 "alice" false

abbrev pub bob : User
bob = user 2 "bob" false

abbrev pub carol : User
carol = user 3 "carol" true

abbrev pub friends : Friendship
friends = record {
  requester_id = 1;
  addressee_id = 2;
  accepted = true;
  created_at = 2;
  updated_at = 3;
}

abbrev pub pending : Friendship
pending = record {
  requester_id = 3;
  addressee_id = 1;
  accepted = false;
  created_at = 2;
  updated_at = 2;
}

abbrev pub club : Models.Group
club = record { group_id = 5; name = "club"; created_by = some 1; created_at = 2 }

abbrev pub member : Uuid → Membership
member i = record { group_id = 5; user_id = i; joined_at = 2 }

abbrev pub letter : Uuid → Uuid → Uuid → ℕ → DirectMessage
letter i a b at = record {
  message_id = i;
  sender_id = a;
  recipient_id = b;
  content = "hello";
  created_at = at;
}

abbrev pub post : Uuid → Uuid → ℕ → GroupMessage
post i a at = record {
  message_id = i;
  group_id = 5;
  sender_id = a;
  content = "hi";
  created_at = at;
}

abbrev pub tables : Db
tables = record {
  users = alice ∷ bob ∷ carol ∷ [];
  friendships = friends ∷ pending ∷ [];
  access_tokens = token "a1" 1 false 40 ∷ token "b1" 2 false 40 ∷ [];
  refresh_tokens = token "r1" 1 false 400 ∷ token "r0" 1 true 400 ∷ token "rx" 2 false 5 ∷ [];
  groups = club ∷ [];
  memberships = member 1 ∷ member 2 ∷ [];
  direct_messages = letter 21 1 2 3 ∷ letter 22 2 1 4 ∷ letter 23 1 2 5 ∷ [];
  group_messages = post 31 1 3 ∷ post 32 2 4 ∷ [];
}

abbrev pub world : World
world = record { db = tables; cache = []; stream = []; tasks = []; faults = [] }

abbrev pub tables-IsConsistent : IsConsistent tables
tables-IsConsistent = record {
  keys = record {
    users = (refl, (refl, (refl, tt)));
    usernames = (refl, (refl, (refl, tt)));
    friendships = (refl, (refl, tt));
    access_tokens = (refl, (refl, tt));
    refresh_tokens = (refl, (refl, (refl, tt)));
    groups = (refl, tt);
    memberships = (refl, (refl, tt));
    direct_messages = (refl, (refl, (refl, tt)));
    group_messages = (refl, (refl, tt));
  };
  references = record {
    requesters = (refl, (refl, tt));
    addressees = (refl, (refl, tt));
    access_users = (refl, (refl, tt));
    refresh_users = (refl, (refl, (refl, tt)));
    creators = (refl, tt);
    member_groups = (refl, (refl, tt));
    member_users = (refl, (refl, tt));
    senders = (refl, (refl, (refl, tt)));
    recipients = (refl, (refl, (refl, tt)));
    message_groups = (refl, (refl, tt));
    message_senders = (refl, (refl, tt));
  };
}
