-- ===== src/Database/Records/RoundTrip.antt =====
-- A model that src/database/queries.py inserts is the model that it reads back.
use messenger_backend.Base.{
  String, ◌≡◌, refl, sym, arith, false, Option, none, some, List, [], ◌∷◌, ◌++◌, keep, All,
}
use messenger_backend.Database.Models.{Uuid}
use messenger_backend.Database.Records.{
  Column, Record, ModelClass, DbModel, user, friendship, access_token, refresh_token, group,
  membership, direct_message, group_message, user_class, access_token_class, refresh_token_class,
  group_class, membership_class, direct_message_class, group_message_class, class_of, to_args,
  Defaults, init, nullable, as_nullable, inserted,
}
use messenger_backend.Database.Records.Conversion.{
  is_known, is_parameter, construct, from_record, update_from_record,
}
use messenger_backend.Database.Records.Statements.{insert_columns, table_columns, select_all}

-- Columns that `__init__` does not know.
abbrev pub AreUnknown : ModelClass → Record → Type 0
AreUnknown c r = All (λ f. is_parameter c f ≡ false) r

unknown_field :
    (c : ModelClass) (f : String × Column) → is_parameter c f ≡ false → is_known c f ≡ false
unknown_field c f h = ground arith

keep-parameters :
    (c : ModelClass) (extra r : Record)
    → AreUnknown c extra
    → keep (is_parameter c) (extra ++ r) ≡ keep (is_parameter c) r
keep-parameters c [] r h = refl
keep-parameters c (f ∷ extra) r h = rw h.0 (keep-parameters c extra r h.1)

keep-unknown :
    (c : ModelClass) (extra r : Record)
    → AreUnknown c extra
    → keep (is_known c) (extra ++ r) ≡ keep (is_known c) r
keep-unknown c [] r h = refl
keep-unknown c (f ∷ extra) r h = rw (unknown_field c f h.0) (keep-unknown c extra r h.1)

columns_same : (a b : List String) → some a ≡ some b → a ≡ b
columns_same a b h = cc

as_nullable-nullable : (o : Option Uuid) → as_nullable (some (nullable o)) ≡ some o
as_nullable-nullable none = refl
as_nullable-nullable (some i) = refl

-- The row of a model, as `*` lists it.
abbrev pub stored : DbModel → List String → Record
stored m cols = select_all (table_columns (class_of m)) (inserted cols (to_args m))

module _ (d : Defaults) where
  -- A model whose arguments are inserted, and whose row is then selected with all columns of its
  -- table, in the table's own order and after any columns that the class does not know, is read back
  -- as the same model; and a model of the class that is updated from that row becomes the same model.
  pub read_back :
      (m old : DbModel) (cols : List String) (extra : Record)
      → insert_columns (class_of m) ≡ some cols
      → class_of old ≡ class_of m
      → AreUnknown (class_of m) extra
      → (from_record d (class_of m) (extra ++ stored m cols) ≡ some m)
        × (update_from_record d old (extra ++ stored m cols) ≡ some m)
  unfolding from_record update_from_record construct init to_args
  read_back (user m) old cols extra h same k =
      rw
        (
          sym (columns_same _ cols h),
          same,
          keep-parameters user_class extra _ k,
          keep-unknown user_class extra _ k,
        )
        (refl, refl)
  read_back (access_token m) old cols extra h same k =
      rw
        (
          sym (columns_same _ cols h),
          same,
          keep-parameters access_token_class extra _ k,
          keep-unknown access_token_class extra _ k,
        )
        (refl, refl)
  read_back (refresh_token m) old cols extra h same k =
      rw
        (
          sym (columns_same _ cols h),
          same,
          keep-parameters refresh_token_class extra _ k,
          keep-unknown refresh_token_class extra _ k,
        )
        (refl, refl)
  read_back (membership m) old cols extra h same k =
      rw
        (
          sym (columns_same _ cols h),
          same,
          keep-parameters membership_class extra _ k,
          keep-unknown membership_class extra _ k,
        )
        (refl, refl)
  read_back (direct_message m) old cols extra h same k =
      rw
        (
          sym (columns_same _ cols h),
          same,
          keep-parameters direct_message_class extra _ k,
          keep-unknown direct_message_class extra _ k,
        )
        (refl, refl)
  read_back (group_message m) old cols extra h same k =
      rw
        (
          sym (columns_same _ cols h),
          same,
          keep-parameters group_message_class extra _ k,
          keep-unknown group_message_class extra _ k,
        )
        (refl, refl)
  read_back (group m) old cols extra h same k =
      rw
        (
          sym (columns_same _ cols h),
          same,
          keep-parameters group_class extra _ k,
          keep-unknown group_class extra _ k,
          as_nullable-nullable m.created_by,
        )
        (refl, refl)
  read_back (friendship m) old cols extra h same k = cc
