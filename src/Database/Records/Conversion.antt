-- ===== src/Database/Records/Conversion.antt =====
-- The methods of `DBModel` in src/database/models.py that read a record.
use messenger_backend.Base.{
  String, Bool, Option, none, some, List, [], ◌∷◌, ◌++◌, not, ◌||◌, any, keep, str_eq,
  if◌then◌else◌,
}
use messenger_backend.Database.Records.{
  Column, Record, ModelClass, DbModel, class_of, valid_keys, to_args, inserted, Defaults, init,
  ◌>>=◌,
}

abbrev pub is_known : ModelClass → String × Column → Bool
is_known c f = any (λ k. str_eq f.0 k) (valid_keys c)

-- `k in valid_keys` of `from_record`: the parameters of `cls.__init__`, which has no instance yet, begin
-- with `self`.
abbrev pub is_parameter : ModelClass → String × Column → Bool
is_parameter c f = str_eq "self" f.0 || is_known c f

-- `cls(**filtered_data)`: a keyword that is no field is a TypeError, and so is `self`, which is given
-- twice then.
unfoldable pub construct : Defaults → ModelClass → Record → Option DbModel
construct d c r = if any (λ f. not (is_known c f)) r then none else init d c r

-- Fields that `__init__` does not have are left aside.
unfoldable pub from_record : Defaults → ModelClass → Record → Option DbModel
from_record d c r = construct d c (keep (is_parameter c) r)

unfoldable pub from_records : Defaults → ModelClass → List Record → Option (List DbModel)
from_records d c [] = some []
from_records d c (r ∷ rs) = do m ← from_record d c r; ms ← from_records d c rs; some (m ∷ ms)

-- The attributes that the record has are set, the others stay; no default is asked for.
unfoldable pub update_from_record : Defaults → DbModel → Record → Option DbModel
update_from_record d m r =
    init d (class_of m)
      (keep (is_known (class_of m)) r ++ inserted (valid_keys (class_of m)) (to_args m))
