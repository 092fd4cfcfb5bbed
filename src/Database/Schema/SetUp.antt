-- ===== src/Database/Schema/SetUp.antt =====
-- The set-up of the schema (src/database/queries.py) from whatever tables and indexes there are.
pub mod Statements
use messenger_backend.Base.{
  ◌≡◌, refl, ◌∙◌, Bool, true, some, List, [], ◌∷◌, ◌&&◌, ◌||◌, arith, Bool-cases, inl, inr,
}
use messenger_backend.Database.Records.{
  ModelClass, user_class, friendship_class, access_token_class, refresh_token_class, group_class,
  membership_class, direct_message_class, group_message_class,
}
use messenger_backend.Database.Records.Statements.{table_columns}
use messenger_backend.Database.Tables.{Db, empty}
use messenger_backend.Database.Schema.{
  same_table, lists_table, table_statements, references, Index, lists_index, index_statements,
  table_number, index_number, indexed, Schema, lists_all, lists_names, create_table, create_index,
  execute_all, ensure_tables_exist, ensure_indexes_exist, set_up, clear_tables,
  idx_friendships_addressee_id, idx_friendships_requester_id, idx_access_tokens_user_id,
  idx_refresh_tokens_user_id, idx_access_tokens_expires_at, idx_refresh_tokens_expires_at,
  idx_groups_created_by, idx_memberships_user_id, idx_dm_sender_recipient, idx_dm_recipient_sender,
  idx_group_messages_timeline, idx_group_messages_sender_id,
}
use messenger_backend.Database.Schema.SetUp.Statements.{valid_columns, every_index, every_table}

-- Every statement comes after those of the tables that it references.
abbrev in_order : List ModelClass → List ModelClass → Bool
in_order known [] = true
in_order known (t ∷ l) = lists_all (references t) known && in_order (t ∷ known) l

-- All that the one list has, the other has.
abbrev Covers : List ModelClass → List ModelClass → Type 0
Covers known l = (t : ModelClass) → lists_table t known ≡ true → lists_table t l ≡ true

lists_all-Covers :
    (ts known l : List ModelClass)
    → Covers known l
    → lists_all ts known ≡ true
    → lists_all ts l ≡ true
lists_all-Covers [] known l c e = refl
lists_all-Covers (t ∷ ts) known l c e = ground (arith, c t, lists_all-Covers ts known l c)

-- A table that is there stays, and the one of the statement is added.
abbrev Adds : ModelClass → Schema → Schema → Type 0
Adds t s s' =
    (u : ModelClass) → lists_table u s'.tables ≡ (lists_table u s.tables || same_table t u)

same_lists :
    (t u : ModelClass) (l : List ModelClass)
    → lists_table t l ≡ true
    → lists_table u l ≡ (lists_table u l || same_table t u)
same_lists t u [] e = cc
same_lists t u (v ∷ l) e = ground (arith, same_lists t u l)

create_table-Adds :
    (t : ModelClass) (s : Schema)
    → lists_all (references t) s.tables ≡ true
    → (s' : Schema) × (create_table t s ≡ some s') × Adds t s s' × (s'.indexes ≡ s.indexes)
unfolding create_table
create_table-Adds t s e = elim (Bool-cases (lists_table t s.tables)) [
  | inl there ↦ rw there (s, refl, (λ u. same_lists t u s.tables there), refl)
  | inr missing ↦
      rw (missing, e) (record s { tables = t ∷ s.tables }, refl, (λ u. ground arith), refl)
]

execute_tables :
    (l known : List ModelClass) (s : Schema)
    → Covers known s.tables
    → in_order known l ≡ true
    → (s' : Schema) × (execute_all create_table l s ≡ some s')
      × ((u : ModelClass) → lists_table u l ≡ true → lists_table u s'.tables ≡ true)
      × Covers s.tables s'.tables
execute_tables [] known s c e = (s, refl, (λ u h. cc), (λ u h. h))
execute_tables (t ∷ l) known s c e =
    let (s1, made, adds, _) =
      create_table-Adds t s (lists_all-Covers (references t) known s.tables c (ground arith)) in
    let (s2, rest, has, keeps) =
      execute_tables l (t ∷ known) s1 (λ u h. ground (arith, adds u, c u)) (ground arith) in
    (
      s2,
      rw (made) rest,
      (λ u h. ground (arith, has u, keeps u, adds u)),
      (λ u h. keeps u (ground (arith, adds u))),
    )

abbrev HasTables : Schema → Type 0
HasTables s = (t : ModelClass) → lists_table t s.tables ≡ true

all_listed :
    (ts l : List ModelClass) → ((t : ModelClass) → lists_table t l ≡ true) → lists_all ts l ≡ true
all_listed [] l h = refl
all_listed (t ∷ ts) l h = ground (arith, h t, all_listed ts l h)

-- Where the table is, an index is added, or is there.
create_index-adds :
    (i : Index) (s : Schema)
    → HasTables s
    → (s' : Schema) × (create_index i s ≡ some s')
      × (s'.tables ≡ s.tables)
      × (lists_index i s'.indexes ≡ true)
      × ((j : Index) → lists_index j s.indexes ≡ true → lists_index j s'.indexes ≡ true)
unfolding create_index
create_index-adds i s h = elim (Bool-cases (lists_index i s.indexes)) [
  | inl there ↦ rw (h (indexed i).0, valid_columns i, there) (s, refl, refl, there, (λ j k. k))
  | inr missing ↦
      rw (h (indexed i).0, valid_columns i, missing)
        (record s { indexes = i ∷ s.indexes }, refl, refl, ground arith, (λ j k. ground arith))
]

execute_indexes :
    (l : List Index) (s : Schema)
    → HasTables s
    → (s' : Schema) × (execute_all create_index l s ≡ some s')
      × (s'.tables ≡ s.tables)
      × ((i : Index) → lists_index i l ≡ true → lists_index i s'.indexes ≡ true)
      × ((i : Index) → lists_index i s.indexes ≡ true → lists_index i s'.indexes ≡ true)
execute_indexes [] s h = (s, refl, refl, (λ i k. cc), (λ i k. k))
execute_indexes (j ∷ l) s h =
    let (s1, made, same, added, kept) = create_index-adds j s h in
    let (s2, rest, same2, has, keeps) = execute_indexes l s1 (λ t. rw same (h t)) in
    (
      s2,
      rw made rest,
      same2 ∙ same,
      (λ i k. ground (arith, has i, keeps i, added)),
      (λ i k. keeps i (kept i k)),
    )

-- A second run changes nothing.
tables_again :
    (l : List ModelClass) (s : Schema) → HasTables s → execute_all create_table l s ≡ some s
unfolding create_table
tables_again [] s h = refl
tables_again (t ∷ l) s h = rw (h t) (tables_again l s h)

indexes_again :
    (l : List Index) (s : Schema)
    → HasTables s
    → ((i : Index) → lists_index i s.indexes ≡ true)
    → execute_all create_index l s ≡ some s
unfolding create_index
indexes_again [] s h k = refl
indexes_again (i ∷ l) s h k = rw (h (indexed i).0, valid_columns i, k i) (indexes_again l s h k)

ordered : in_order [] table_statements ≡ true
unfolding references table_number
ordered = refl

-- From whatever tables and indexes the database has, each as its statement makes it, the set-up of
-- the schema ends without an error: every statement comes after those of the tables that it
-- references. It leaves all tables and all indexes, and a further set-up changes nothing.
pub set_up_completes :
    (s : Schema)
    → (s' : Schema) × (set_up s ≡ some s')
      × ((t : ModelClass) → lists_table t s'.tables ≡ true)
      × ((i : Index) → lists_index i s'.indexes ≡ true)
      × (set_up s' ≡ some s')
unfolding set_up ensure_tables_exist ensure_indexes_exist
set_up_completes s =
    let (s1, made, has, _) = execute_tables table_statements [] s (λ t h. cc) ordered in
    let tables : HasTables s1 = λ t. has t (every_table t) in
    let (s2, indexes, same, listed, _) = execute_indexes index_statements s1 tables in
    let tables2 : HasTables s2 = λ t. rw same (tables t) in
    let all : (i : Index) → lists_index i s2.indexes ≡ true = λ i. listed i (every_index i) in
    (
      s2,
      rw made indexes,
      tables2,
      all,
      rw (tables_again table_statements s2 tables2) (indexes_again index_statements s2 tables2 all),
    )

-- CLEAR_TABLES leaves no row, by its cascades also in the tables of the messages.
pub clear_tables_empties : (db : Db) → clear_tables db ≡ empty
unfolding clear_tables references table_number
clear_tables_empties db = refl
