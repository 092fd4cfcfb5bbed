-- ===== src/Services/Consistency/Rules.antt =====
-- Rules for what keeps an invariant of the tables: statements, lookups, and the branches of the
-- services.
use messenger_backend.Base.{ℕ, String, ◌≡◌, refl, Bool, true, false, Option, none, some}
use messenger_backend.Database.Tables.{Db, IsConsistent}
use messenger_backend.Database.Sql.{
  Statement, Outcome, done, fails, execute, create_group, remove_group_member,
}
use messenger_backend.Database.Integrity.{execute-IsConsistent}
use messenger_backend.Database.Enums.{Entity}
use messenger_backend.Database.Errors.{Value}
use messenger_backend.Database.Queries.{run, finish, found}
use messenger_backend.Effects.{World, M, Exn, not_found, or_raise}
use messenger_backend.Effects.Keeps.{
  Keeps, Keeps-pure, Keeps-raise, Keeps-if, keeps_rules, Keeps-then, Keeps-publish,
}
use messenger_backend.External.{External, Verdict, matches, mismatch, invalid_hash, failed}
use messenger_backend.Services.Auth.{verdict, when, for_given, evict_local}

or_raise_keeps :
    (P : Db → Type 0) {A : Type 0} (o : Option A) (e : Exn) (w : World)
    → P w.db
    → P (or_raise o e w).1.db
unfolding or_raise
or_raise_keeps P none e w h = h
or_raise_keeps P (some a) e w h = h

module _ {P : Db → Type 0} where
  pub Keeps-found :
      {A : Type 0} (f : World → Option A) (e : Entity) (v : Value) → Keeps P (found f e v)
  unfolding found
  Keeps-found f e v = record { at = λ w h. or_raise_keeps P (f w) (not_found e v) w h }

  pub Keeps-when : (b : Bool) {m : M (Unit {0})} → Keeps P m → Keeps P (when b m)
  unfolding when
  Keeps-when b k = Keeps-if b k (Keeps-pure tt)

  pub Keeps-verdict : (v : Verdict) → Keeps P (verdict v)
  unfolding verdict
  Keeps-verdict matches = Keeps-pure true
  Keeps-verdict mismatch = Keeps-pure false
  Keeps-verdict invalid_hash = Keeps-pure false
  Keeps-verdict failed = Keeps-raise _

pub ruleset local_rules = (keeps_rules, Keeps-found, Keeps-when, Keeps-verdict)

module _ {P : Db → Type 0} ⦃x : External⦄ where
  pub Keeps-evict_local : (h : String) → Keeps P (evict_local h)
  unfolding evict_local
  Keeps-evict_local h = record { at = λ w k. k }

  pub Keeps-for_given :
      (o : Option String) (f : String → M (Unit {0}))
      → ((h : String) → Keeps P (f h))
      → Keeps P (for_given o f)
  unfolding for_given
  Keeps-for_given none f k = Keeps-pure tt
  Keeps-for_given (some h) f k = k h

-- The statements that a service may run at any time: all but those that only a transaction with more
-- to it makes good.
abbrev pub IsNeutral : Statement → Type 0
IsNeutral (create_group _) = ⊥
IsNeutral (remove_group_member _ _) = ⊥
IsNeutral _ = Unit

-- What neutral statements keep.
pub record IsKept ⦃x : External⦄ (P : Db → Type 0) : Type 0 where
  pub by_statement :
      (s : Statement) (n : ℕ) (db db' : Db) → IsNeutral s → P db → execute s db ≡ done n db' → P db'

module _ ⦃x : External⦄ {P : Db → Type 0} where
  pub finished :
      (w : World) (s : Statement) (o : Outcome)
      → ((n : ℕ) (db' : Db) → P w.db → execute s w.db ≡ done n db' → P db')
      → execute s w.db ≡ o
      → P w.db
      → P (finish w o).1.db
  finished w s (done n db) k e h = k n db h e
  finished w s (fails v) k e h = h

  pub Keeps-run : IsKept P → (s : Statement) → IsNeutral s → Keeps P (run s)
  unfolding run
  Keeps-run k s free = record {
    at = λ w h.
        finished w s (execute s w.db) (λ n db' p e. k.by_statement s n w.db db' free p e) refl h;
  }

module _ ⦃x : External⦄ where
  pub IsConsistent-IsKept : IsKept IsConsistent
  IsConsistent-IsKept = record { by_statement = λ s n db db' _ h e. execute-IsConsistent db h s e }

  pub Keeps-run_consistent : (s : Statement) → Keeps IsConsistent (run s)
  unfolding run
  Keeps-run_consistent s = record {
    at = λ w h. finished w s (execute s w.db) (λ n db' p e. execute-IsConsistent w.db p s e) refl h;
  }

pub given : Unit {0}
given = tt

pub ruleset run_rules = (local_rules, Keeps-run, given)
