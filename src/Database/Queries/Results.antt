-- ===== src/Database/Queries/Results.antt =====
-- What the query functions on tokens have done where they return.
use messenger_backend.Base.{String, ◌≡◌, refl, false, Option, some, List, ◌∷◌, arith, any, update}
use messenger_backend.Database.Enums.{Entity}
use messenger_backend.Database.Errors.{Value}
use messenger_backend.Database.Models.{Uuid, Token}
use messenger_backend.Database.Tables.{same_token}
use messenger_backend.Database.Sql.{of_token, of_owner, revoke, insert, violated, execute}
use messenger_backend.Database.Queries.{
  found, run, create_access_token, create_refresh_token, revoke_refresh_token,
  revoke_all_user_access_tokens, revoke_all_user_refresh_tokens,
}
use messenger_backend.Effects.{World, ok, effects}
use messenger_backend.External.{External}

abbrev pub with_access : List Token → World → World
with_access l w = record w { db = record w.db { access_tokens = l } }

abbrev pub with_refresh : List Token → World → World
with_refresh l w = record w { db = record w.db { refresh_tokens = l } }

pub found-ok :
    {A : Type 0} (f : World → Option A) (e : Entity) (v : Value) (w : World) {a : A} {w' : World}
    → found f e v w ≡ (ok a, w')
    → (f w ≡ some a) × (w' ≡ w)
unfolding found effects
found-ok f e v w h = ground arith

module _ ⦃x : External⦄ (w : World) {u : Unit {0}} {w' : World} where
  pub create_access_token-ok :
      (t : Token)
      → create_access_token t w ≡ (ok u, w')
      → (any (same_token t) w.db.access_tokens ≡ false)
        × (w' ≡ with_access (t ∷ w.db.access_tokens) w)
  unfolding create_access_token run execute insert violated effects
  create_access_token-ok t h = ground arith

  pub create_refresh_token-ok :
      (t : Token)
      → create_refresh_token t w ≡ (ok u, w')
      → (any (same_token t) w.db.refresh_tokens ≡ false)
        × (w' ≡ with_refresh (t ∷ w.db.refresh_tokens) w)
  unfolding create_refresh_token run execute insert violated effects
  create_refresh_token-ok t h = ground arith

  pub revoke_refresh_token-ok :
      (h : String)
      → revoke_refresh_token h w ≡ (ok u, w')
      → w' ≡ with_refresh (update (of_token h) revoke w.db.refresh_tokens) w
  unfolding revoke_refresh_token run execute effects
  revoke_refresh_token-ok h e = ground arith

module _ ⦃x : External⦄ (w : World) (i : Uuid) where
  -- These two always return.
  pub revoke_all_user_access_tokens_lem :
      revoke_all_user_access_tokens i w
      ≡ (ok tt, with_access (update (of_owner i) revoke w.db.access_tokens) w)
  unfolding revoke_all_user_access_tokens run execute effects
  revoke_all_user_access_tokens_lem = refl

  pub revoke_all_user_refresh_tokens_lem :
      revoke_all_user_refresh_tokens i w
      ≡ (ok tt, with_refresh (update (of_owner i) revoke w.db.refresh_tokens) w)
  unfolding revoke_all_user_refresh_tokens run execute effects
  revoke_all_user_refresh_tokens_lem = refl
