-- ===== src/Utils/Tasks/Held.antt =====
-- What the set of background tasks of src/utils/tasks.py is for.
use messenger_backend.Base.{
  ℕ, String, ◌≡◌, refl, Bool, true, false, List, [], ◌∷◌, ◌++◌, ◌==◌, ◌||◌, contains, contains-add,
  contains-discard, arith, inl, inr, Bool-cases, is_empty,
}
use messenger_backend.Utils.Tasks.{
  End, failed, Status, finished, Tasks, no_tasks, is_running, spawn_task, logged, handle_completion,
  drain_background_tasks, cancel_pending, Step, spawned, ended, completed, drain, waited, Steps,
  here, next,
}

-- The task's failure is in the log.
abbrev pub is_logged : ℕ → List (ℕ × String) → Bool
is_logged i [] = false
is_logged i ((j, message) ∷ l) = (j == i) || is_logged i l

abbrev pub is_failed : Status → Bool
is_failed (finished (failed _)) = true
is_failed _ = false

-- The set refers to every task that runs, and to every one that failed and is not logged yet.
pub record AreHeld (w : Tasks) : Type 0 where
  pub running : (i : ℕ) → is_running (w.status i) ≡ true → contains i w.background ≡ true
  pub failures :
      (i : ℕ)
      → is_failed (w.status i) ≡ true
      → (contains i w.background || is_logged i w.errors) ≡ true

is_logged-append :
    (i : ℕ) (l m : List (ℕ × String)) → is_logged i (l ++ m) ≡ (is_logged i l || is_logged i m)
is_logged-append i [] m = refl
is_logged-append i (x ∷ l) m = ground (arith, is_logged-append i l m)

failure-is_logged :
    (i : ℕ) (e : End) → is_failed (finished e) ≡ true → is_logged i (logged i e) ≡ true
failure-is_logged i e h = ground arith

Step-AreHeld : {w v : Tasks} → Step w v → AreHeld w → AreHeld v
unfolding spawn_task handle_completion drain_background_tasks cancel_pending
Step-AreHeld {w} (spawned i new) k = record {
  running = λ j r. ground (arith, k.running j, contains-add j i w.background);
  failures = λ j r. ground (arith, k.failures j, contains-add j i w.background);
}
Step-AreHeld {w} (ended i e was) k = record {
  running = λ j r. ground (arith, k.running j);
  failures = λ j r. ground (arith, k.failures j, k.running j);
}
Step-AreHeld {w} (completed i e was there) k = record {
  running = λ j r. ground (arith, k.running j, contains-discard j i w.background);
  failures = λ j r. ground (
    arith,
    k.failures j,
    contains-discard j i w.background,
    is_logged-append j w.errors (logged i e),
    failure-is_logged i e,
  );
}
Step-AreHeld {w} (drain idle) k = elim (Bool-cases (is_empty w.background)) [
  | inl e ↦ rw e k
  | inr e ↦ rw e (record { running = k.running; failures = k.failures })
]
Step-AreHeld (waited l e) k = record { running = k.running; failures = k.failures }

-- Over every interleaving of calls, tasks and callbacks: the set refers to each task that runs, which
-- so is not collected, and a task that failed is in the set, where its callback is still to come, or
-- its failure is in the log.
pub tasks-AreHeld : {w : Tasks} → Steps no_tasks w → AreHeld w
tasks-AreHeld here = record { running = λ i r. cc; failures = λ i r. cc }
tasks-AreHeld (next ss s) = Step-AreHeld s (tasks-AreHeld ss)
