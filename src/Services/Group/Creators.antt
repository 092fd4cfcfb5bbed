-- ===== src/Services/Group/Creators.antt =====
-- Who created a group is a member of it: an invariant of the transactions of src/services/group.py.
use messenger_backend.Base.{
  ◌∙◌, ℕ, ◌≡◌, refl, inl, inr, Bool, true, false, Option, none, some, List, [], ◌∷◌, ◌==◌, not,
  ◌&&◌, ◌||◌, arith, any, any-keep, keep, All, All-imp, All-keep_imp, Bool-cases, String,
}
use messenger_backend.Database.Models
use messenger_backend.Database.Models.{Uuid, Membership}
use messenger_backend.Database.Tables.{Db, IsConsistent, same_id}
use messenger_backend.Database.Sql.{
  Statement, done, execute, insert, violated, of_membership, group_of, without_group, without_user,
}
use messenger_backend.Database.Sql
use messenger_backend.Database.Integrity.{execute-IsConsistent}
use messenger_backend.External.{External}
use messenger_backend.Database.Fetch
use messenger_backend.Database.Queries
use messenger_backend.Database.Queries.{run}
use messenger_backend.Effects.{World, Exn, Result, ok, err, effects}
use messenger_backend.Effects.Keeps.{Keeps}
use messenger_backend.Services.Group.{create_group, create_group_tx, remove_member}
use messenger_backend.Services.Group.Permissions.{removal, only_row, remove_member_outcome}
use messenger_backend.Services.Request.{Request}
use messenger_backend.Services.Translation.{handle_db_constraint_error}
use messenger_backend.Services.Consistency.{
  create_group-Keeps, remove_member-Keeps, IsNeutral, IsKept,
}

abbrev pub is_joined_by : List Membership → Uuid → Option Uuid → Bool
is_joined_by ms group_id none = false
is_joined_by ms group_id (some c) = any (of_membership group_id c) ms

abbrev pub is_joined : List Membership → Models.Group → Bool
is_joined ms g = is_joined_by ms g.group_id g.created_by

pub record CreatorsJoin (db : Db) : Type 0 where
  pub consistent : IsConsistent db
  pub joined : All (λ g. is_joined db.memberships g ≡ true) db.groups

abbrev Joined : List Membership → List Models.Group → Type 0
Joined ms gs = All (λ g. is_joined ms g ≡ true) gs

module _ ⦃x : External⦄ where
  -- The statements that change neither groups nor memberships.
  abbrev AreKept : Db → Db → Type 0
  AreKept db db' = (db'.groups ≡ db.groups) × (db'.memberships ≡ db.memberships)

  keeps :
      (db db' : Db)
      → AreKept db db'
      → Joined db.memberships db.groups
      → Joined db'.memberships db'.groups
  keeps db db' e h = rw (e.0, e.1) h

joined_more :
    (m : Membership) (ms : List Membership) (g : Models.Group)
    → is_joined ms g ≡ true
    → is_joined (m ∷ ms) g ≡ true
joined_more m ms g h = more g.created_by h
  where
    more :
        (o : Option Uuid)
        → is_joined_by ms g.group_id o ≡ true
        → is_joined_by (m ∷ ms) g.group_id o ≡ true
    more none h = h
    more (some c) h = ground arith

without-Joined :
    (i : Uuid) (ms : List Membership) (gs : List Models.Group)
    → any (λ g. same_id g.created_by i) gs ≡ false
    → Joined ms gs
    → Joined (keep (λ m. not (m.user_id == i)) ms) gs
without-Joined i ms [] none_by h = h
without-Joined i ms (g ∷ gs) none_by h =
    (others g.created_by (ground arith) h.0, without-Joined i ms gs (ground arith) h.1)
  where
    others :
        (o : Option Uuid)
        → same_id o i ≡ false
        → is_joined_by ms g.group_id o ≡ true
        → is_joined_by (keep (λ m. not (m.user_id == i)) ms) g.group_id o ≡ true
    others none d k = k
    others (some c) d k =
        any-keep (λ m. not (m.user_id == i)) (of_membership g.group_id c) (λ m e. ground arith) ms k

kept_joined :
    (i : Uuid) (ms : List Membership) (g : Models.Group)
    → is_joined ms g ≡ true
    → not (g.group_id == i) ≡ true
    → is_joined (keep (λ m. not (m.group_id == i)) ms) g ≡ true
kept_joined i ms g h other = others g.created_by h
  where
    others :
        (o : Option Uuid)
        → is_joined_by ms g.group_id o ≡ true
        → is_joined_by (keep (λ m. not (m.group_id == i)) ms) g.group_id o ≡ true
    others none k = k
    others (some c) k =
        any-keep (λ m. not (m.group_id == i)) (of_membership g.group_id c) (λ m e. ground arith) ms
          k

module _ ⦃x : External⦄ (db db' : Db) (n : ℕ) where
  statement-Joined :
      (s : Statement)
      → IsNeutral s
      → execute s db ≡ done n db'
      → Joined db.memberships db.groups
      → Joined db'.memberships db'.groups
  unfolding execute insert violated
  statement-Joined (Sql.create_group _) free e h = elim free [ ]
  statement-Joined (Sql.remove_group_member _ _) free e h = elim free [ ]
  statement-Joined (Sql.add_group_member m) free e h =
      let same : db' ≡ record db { memberships = m ∷ db.memberships } = ground arith in
      rw same (All-imp _ _ (joined_more m db.memberships) db.groups h)
  statement-Joined (Sql.delete_user i) free e h =
      elim (Bool-cases (any (λ u. u.user_id == i) db.users)) [
        | inr absent ↦ keeps db db' (ground arith) h
        | inl present ↦
            let same : db' ≡ without_user i db = ground arith in
            rw same (without-Joined i db.memberships db.groups (ground arith) h)
      ]
  statement-Joined (Sql.delete_group i creator) free e h =
      elim (Bool-cases (any (group_of i creator) db.groups)) [
        | inr absent ↦ keeps db db' (ground arith) h
        | inl present ↦
            let same : db' ≡ without_group i db = ground arith in
            rw same (All-keep_imp _ _ _ (kept_joined i db.memberships) db.groups h)
      ]
  statement-Joined _ free e h = keeps db db' (ground arith) h

removed-Joined :
    (group_id i : Uuid) (ms : List Membership) (gs : List Models.Group)
    → any (group_of group_id i) gs ≡ false
    → Joined ms gs
    → Joined (keep (λ m. not (of_membership group_id i m)) ms) gs
removed-Joined group_id i ms [] none_by h = h
removed-Joined group_id i ms (g ∷ gs) none_by h =
    (others g.created_by (ground arith) h.0, removed-Joined group_id i ms gs (ground arith) h.1)
  where
    others :
        (o : Option Uuid)
        → ((g.group_id == group_id) && same_id o i) ≡ false
        → is_joined_by ms g.group_id o ≡ true
        → is_joined_by (keep (λ m. not (of_membership group_id i m)) ms) g.group_id o ≡ true
    others none d k = k
    others (some c) d k =
        any-keep (λ m. not (of_membership group_id i m)) (of_membership g.group_id c)
          (λ m e. ground arith) ms k

module _ ⦃x : External⦄ (actor_id group_id target_user_id : Uuid) (w : World)
    (h : CreatorsJoin w.db) where
  removal-Joined :
      (o : Option Models.Group)
      → Fetch.group_by_id group_id w.db ≡ o
      → Joined
          (removal actor_id group_id w target_user_id o).1.db.memberships
          (removal actor_id group_id w target_user_id o).1.db.groups
  removal-Joined none e = h.joined
  removal-Joined (some g) e = elim (Bool-cases (same_id g.created_by target_user_id)) [
    | inl creator ↦ rw creator h.joined
    | inr other ↦
        let none_by =
          only_row target_user_id group_id w w.db.groups h.consistent.keys.groups e ∙ other in
        let removed =
          removed-Joined group_id target_user_id w.db.memberships w.db.groups none_by h.joined in
        elim (Bool-cases ((actor_id == target_user_id) || same_id g.created_by actor_id)) [
          | inr refused ↦ rw (other, refused) h.joined
          | inl allowed ↦
              elim (Bool-cases (any (of_membership group_id target_user_id) w.db.memberships)) [
                | inl there ↦ rw (other, allowed, there) removed
                | inr absent ↦ rw (other, allowed, absent) h.joined
              ]
        ]
  ]

module _ ⦃x : External⦄ (r : Request) (u : Uuid) (name : String) (w : World) where
  create_ok :
      {p : Models.Group × Membership} {w' : World}
      → create_group r u name w ≡ (ok p, w')
      → (w'.db ≡ record w.db { groups = p.0 ∷ w.db.groups; memberships = p.1 ∷ w.db.memberships })
        × (p.0.created_by ≡ some p.1.user_id)
        × (p.1.group_id ≡ p.0.group_id)
  unfolding create_group create_group_tx handle_db_constraint_error Queries.create_group
      Queries.add_group_member run execute insert violated effects
  create_ok e = ground arith

  create_err : {z : Exn} {w' : World} → create_group r u name w ≡ (err z, w') → w'.db ≡ w.db
  unfolding create_group create_group_tx handle_db_constraint_error Queries.create_group
      Queries.add_group_member run execute insert violated effects
  create_err e = ground arith

  creation-Joined :
      (o : Result (Models.Group × Membership) × World)
      → create_group r u name w ≡ o
      → Joined w.db.memberships w.db.groups
      → Joined o.1.db.memberships o.1.db.groups
  creation-Joined (ok (g, m), w') e h =
      let (same, creator, of_group) = create_ok e in
      rw same (
        rw (creator, of_group) (ground arith),
        All-imp _ _ (joined_more m w.db.memberships) w.db.groups h,
      )
  creation-Joined (err z, w') e h = rw (create_err e) h

module _ ⦃x : External⦄ where
  pub CreatorsJoin-IsKept : IsKept CreatorsJoin
  CreatorsJoin-IsKept = record {
    by_statement = λ s n db db' free h e. record {
      consistent = execute-IsConsistent db h.consistent s e;
      joined = statement-Joined db db' n s free e h.joined;
    };
  }

  pub create_group-CreatorsJoin :
      (r : Request) (u : Uuid) (name : String) → Keeps CreatorsJoin (create_group r u name)
  create_group-CreatorsJoin r u name = record {
    at = λ w h. record {
      consistent = (create_group-Keeps r u name).at w h.consistent;
      joined = creation-Joined r u name w (create_group r u name w) refl h.joined;
    };
  }

  pub remove_member-CreatorsJoin : (a g u : Uuid) → Keeps CreatorsJoin (remove_member a g u)
  remove_member-CreatorsJoin a g u = record {
    at = λ w h. record {
      consistent = (remove_member-Keeps a g u).at w h.consistent;
      joined =
          rw (remove_member_outcome a g w u)
            (removal-Joined a g u w h (Fetch.group_by_id g w.db) refl);
    };
  }
