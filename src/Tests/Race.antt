-- ===== src/Tests/Race.antt =====
-- Witnesses on concurrent refreshes: one call presents "r1", and a login commits between two of its
-- statements.
use messenger_backend.Base.{ℕ, ◌≡◌, refl, true, false, inl, if◌then◌else◌, ◌==◌, inr, Bool-cases}
use messenger_backend.Database.Models.{Timestamp}
use messenger_backend.Database.Sql
use messenger_backend.Database.Sql.{execute, insert, violated, of_token}
use messenger_backend.Services.Auth.{refresh_row}
use messenger_backend.Services.Auth.Race.{
  has_rotated, Calls, begin_at, after_read, locks, executes, elsewhere, commits, Steps, here, next,
}
use messenger_backend.Services.Auth.Race.Spent.{IsSpent}
use messenger_backend.Services.Auth.Race.Exclusion.{rotates_once}
use messenger_backend.Services.Request.{TokenPair, generate_token_pair}
use messenger_backend.Tests.Sample.{sample, settings, request, later, token, tables}

abbrev clock : ℕ → Timestamp
clock i = 10

abbrev pairs : ℕ → TokenPair
pairs i =
    if i == 0 then generate_token_pair settings request else generate_token_pair settings later

pairs_differ : (i : ℕ) (u : ℕ) → of_token "r1" (refresh_row u (pairs i)) ≡ false
pairs_differ i u = elim (Bool-cases (i == 0)) [ inl e ↦ rw e refl | inr e ↦ rw e refl ]

abbrev run : (c : Calls) × Steps "r1" clock pairs (begin_at tables) c
unfolding after_read execute insert violated
run =
    let t = token "r1" 1 false 400 in
    (
      _,
      next (locks 0 t refl refl refl) (
          next (executes 0 t _ _ _ _ refl refl refl) (
            next (elsewhere (Sql.insert_access_token (token "a9" 1 false 400)) tt refl (inr refl)) (
              next (executes 0 t _ _ _ _ refl refl refl) (
                next (executes 0 t _ _ _ _ refl refl refl)
                  (next (commits 0 t false _ refl) (here _)))))),
    )

first_rotates : has_rotated (run.0.phase 0) ≡ true
unfolding run
first_rotates = refl

rotates_once_example :
    IsSpent "r1" run.0.db × ((j : ℕ) → has_rotated (run.0.phase j) ≡ true → 0 ≡ j)
rotates_once_example = rotates_once "r1" clock pairs pairs_differ tables run.1 0 first_rotates
