-- ===== src/Services/Auth/Race/Rotation.antt =====
-- The transaction of `refresh` of src/services/auth.py past its locked read: what its writes keep, and
-- what they have done by the commit of a rotation.
use messenger_backend.Base.{
  String, ◌≡◌, ◌⊎◌, refl, sym, Bool, true, false, List, [], ◌∷◌, ◌++◌, any, any_of_Elem,
  update_sets, All, All-update, All_at, every_of_Elem, Elem, Bool-cases, inl, inr,
}
use messenger_backend.Database.Models.{Timestamp, Token, is_expired}
use messenger_backend.Database.Sql.{Statement, of_token, revoke}
use messenger_backend.Database.Sql
use messenger_backend.Database.Tables.{Db}
use messenger_backend.Effects.{ok, err}
use messenger_backend.External.{External}
use messenger_backend.Services.Auth.{refresh_row}
use messenger_backend.Services.Auth.Race.{
  IsOther, Writes, no_writes, visible, write, Plan, after_read,
}
use messenger_backend.Services.Auth.Race.Spent.{IsSpent}
use messenger_backend.Services.Request.{TokenPair}

-- A rotation is of a row that was not revoked when it was read; its revocation is to come or written.
abbrev pub Exchanges : String → Token → List Statement → Bool → Writes → Type 0
Exchanges h t ss true ws = Unit
Exchanges h t ss false ws =
    (t.is_revoked ≡ false) × (Elem (Sql.revoke_refresh_token h) ss ⊎ Elem h ws.refresh_revoked)

abbrev pub IsPlanned : String → Token → Plan → Writes → Type 0
IsPlanned h t (ok (ss, b)) ws = All (IsOther h) ss × Exchanges h t ss b ws
IsPlanned h t (err e) ws = Unit

-- The new rows are not of the token, neither those written nor those to come.
abbrev pub IsUnderWay : String → Token → Plan → Writes → Type 0
IsUnderWay h t todo ws = All (λ r. of_token h r ≡ false) ws.refresh_new × IsPlanned h t todo ws

All-++ : {A : Type 0} (P : A → Type 0) (l m : List A) → All P l → All P m → All P (l ++ m)
All-++ P [] m h k = k
All-++ P (x ∷ l) m h k = (h.0, All-++ P l m h.1 k)

Elem-++ : {A : Type 0} (a : A) (l m : List A) → Elem a m → Elem a (l ++ m)
Elem-++ a [] m k = k
Elem-++ a (x ∷ l) m k = inr (Elem-++ a l m k)

module _ (h : String) (ws : Writes) (db : Db) where
  pub visible-IsSpent :
      All (λ r. of_token h r ≡ false) ws.refresh_new → IsSpent h db → IsSpent h (visible ws db)
  visible-IsSpent others k =
      All-update _ revoke _ (λ t p m. refl) (ws.refresh_new ++ db.refresh_tokens)
        (All-++ _ ws.refresh_new db.refresh_tokens
          (every_of_Elem _ ws.refresh_new (λ r m e. cc (All_at _ ws.refresh_new others m, e))) k)

  pub marked-IsSpent : Elem h ws.refresh_revoked → IsSpent h (visible ws db)
  marked-IsSpent marked =
      let rows = ws.refresh_new ++ db.refresh_tokens in
      let sets =
        update_sets (λ t. any (λ g. of_token g t) ws.refresh_revoked) revoke
          (λ r. r.is_revoked ≡ true) (λ r. refl) rows in
      every_of_Elem _ _
        (λ r m e. All_at _ _ sets m (any_of_Elem (λ g. of_token g r) ws.refresh_revoked marked e))

module _ ⦃x : External⦄ (h : String) where
  pub after_read-IsUnderWay :
      (now : Timestamp) (pair : TokenPair) (t : Token)
      → of_token h (refresh_row t.user_id pair) ≡ false
      → IsUnderWay h t (after_read now h pair t) no_writes
  unfolding after_read
  after_read-IsUnderWay now pair t fresh = elim (Bool-cases t.is_revoked) [
    | inl revoked ↦ rw revoked (tt, ((tt, (tt, tt)), tt))
    | inr valid ↦ elim (Bool-cases (is_expired now t)) [
      | inl expired ↦ rw (valid, expired) (tt, tt)
      | inr lasting ↦ rw (valid, lasting) (tt, ((tt, (tt, (fresh, tt))), (refl, inl (inl refl))))
    ]
  ]

  write_others :
      (s : Statement) (db : Db) (ws : Writes)
      → IsOther h s
      → All (λ r. of_token h r ≡ false) ws.refresh_new
      → All (λ r. of_token h r ≡ false) (write s db ws).refresh_new
  write_others (Sql.insert_refresh_token t) db ws other k = (other, k)
  write_others _ db ws other k = k

  write_keeps :
      (s : Statement) (db : Db) (ws : Writes)
      → Elem h ws.refresh_revoked
      → Elem h (write s db ws).refresh_revoked
  write_keeps (Sql.revoke_refresh_token g) db ws m = inr m
  write_keeps (Sql.revoke_all_user_refresh_tokens i) db ws m = Elem-++ h _ ws.refresh_revoked m
  write_keeps _ db ws m = m

  planned_next :
      (t : Token) (s : Statement) (ss : List Statement) (b : Bool) (db : Db) (ws : Writes)
      → Exchanges h t (s ∷ ss) b ws
      → Exchanges h t ss b (write s db ws)
  planned_next t s ss true db ws k = tt
  planned_next t s ss false db ws (valid, inl (inl e)) = (valid, inr (rw (sym e) (inl refl)))
  planned_next t s ss false db ws (valid, inl (inr m)) = (valid, inl m)
  planned_next t s ss false db ws (valid, inr m) = (valid, inr (write_keeps s db ws m))

  -- A statement keeps the transaction under way.
  pub write-IsUnderWay :
      (t : Token) (s : Statement) (ss : List Statement) (b : Bool) (db : Db) (ws : Writes)
      → IsUnderWay h t (ok (s ∷ ss, b)) ws
      → IsUnderWay h t (ok (ss, b)) (write s db ws)
  write-IsUnderWay t s ss b db ws (others, ((other, rest), k)) =
      (write_others s db ws other others, (rest, planned_next t s ss b db ws k))

  -- The rotation has revoked the token by its commit.
  pub rotated-IsMarked :
      (t : Token) (b : Bool) (ws : Writes)
      → b ≡ false
      → IsUnderWay h t (ok ([], b)) ws
      → (t.is_revoked ≡ false) × Elem h ws.refresh_revoked
  rotated-IsMarked t true ws e k = cc
  rotated-IsMarked t false ws e (others, (rest, (valid, inl m))) = absurd m
  rotated-IsMarked t false ws e (others, (rest, (valid, inr m))) = (valid, m)
