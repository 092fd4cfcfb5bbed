-- ===== src/Services/User/Friendships/Rows.antt =====
-- The relation that the rows of src/database/sql.py, table friendships, stand for.
use messenger_backend.Base.{
  ◌≡◌, refl, Bool, true, not, ◌&&◌, ◌||◌, Option, none, some, is_none, List, [], ◌∷◌, ◌==◌,
  if◌then◌else◌, arith, any, find, keep, update,
}
use messenger_backend.Database.Models.{Uuid, Timestamp, Friendship}
use messenger_backend.Database.Tables.{Db}
use messenger_backend.Database.Sql.{from_to, between}

-- The relation from a requester to an addressee: none, or whether it is accepted.
abbrev pub Relation : Type 0
Relation = Uuid → Uuid → Option Bool

abbrev pub accepted_of : Option Friendship → Option Bool
accepted_of none = none
accepted_of (some f) = some f.accepted

abbrev pub relation : Db → Relation
relation db a b = accepted_of (find (from_to a b) db.friendships)

abbrev pub is_pair : Uuid → Uuid → Uuid → Uuid → Bool
is_pair a b c d = (a == c) && (b == d)

pub any-relation :
    (a b : Uuid) (l : List Friendship)
    → any (from_to a b) l ≡ not (is_none (accepted_of (find (from_to a b) l)))
any-relation a b [] = refl
any-relation a b (f ∷ l) = ground (arith, any-relation a b l)

pub any-between :
    (a b : Uuid) (l : List Friendship)
    → any (between a b) l ≡ (any (from_to a b) l || any (from_to b a) l)
any-between a b [] = refl
any-between a b (f ∷ l) = ground (arith, any-between a b l)

pub relation-update :
    (a b c d : Uuid) (now : Timestamp) (l : List Friendship)
    → accepted_of (
        find
          (from_to c d)
          (update (from_to a b) (λ f. record f { accepted = true; updated_at = now }) l))
      ≡ (if is_pair a b c d && any (from_to a b) l
          then some true
          else accepted_of (find (from_to c d) l))
relation-update a b c d now [] = ground arith
relation-update a b c d now (f ∷ l) = ground (arith, relation-update a b c d now l)

pub relation-keep :
    (a b c d : Uuid) (l : List Friendship)
    → accepted_of (find (from_to c d) (keep (λ f. not (between a b f)) l))
      ≡ (if is_pair a b c d || is_pair b a c d then none else accepted_of (find (from_to c d) l))
relation-keep a b c d [] = ground arith
relation-keep a b c d (f ∷ l) = ground (arith, relation-keep a b c d l)
