-- ===== src/Utils/Tasks.antt =====
-- src/utils/tasks.py: the set of background tasks of a worker, as a step relation between the calls
-- of the two functions, the event loop, and the callbacks.
pub mod Held
use messenger_backend.Base.{
  ℕ, String, ◌≡◌, Bool, true, false, Option, none, some, List, [], ◌∷◌, ◌++◌, ◌==◌, if◌then◌else◌,
  contains, add, discard, keep, is_empty,
}

pub data End : Type 0 where
  returned cancelled : End
  failed : String → End

pub data Status : Type 0 where
  absent running : Status
  finished : End → Status

-- `background` is `_background_tasks`; `draining` is the set that `asyncio.wait` was given, while it
-- waits; `cancelling` are the tasks that `cancel()` was called of; `errors` what was logged.
pub record Tasks : Type 0 where
  pub background : List ℕ
  pub status : ℕ → Status
  pub draining : Option (List ℕ)
  pub cancelling : List ℕ
  pub errors : List (ℕ × String)

abbrev pub no_tasks : Tasks
no_tasks = record {
  background = [];
  status = λ _. absent;
  draining = none;
  cancelling = [];
  errors = [];
}

abbrev pub is_running : Status → Bool
is_running running = true
is_running _ = false

abbrev pub becomes : ℕ → Status → (ℕ → Status) → ℕ → Status
becomes i s f j = if j == i then s else f j

unfoldable pub spawn_task : ℕ → Tasks → Tasks
spawn_task i w = record w { background = add i w.background; status = becomes i running w.status }

-- `not t.cancelled() and (exc := t.exception())`
abbrev pub logged : ℕ → End → List (ℕ × String)
logged i (failed message) = (i, message) ∷ []
logged i _ = []

-- `_handle_completion`
unfoldable pub handle_completion : ℕ → End → Tasks → Tasks
handle_completion i e w = record w {
  background = discard i w.background;
  errors = w.errors ++ logged i e;
}

-- `drain_background_tasks` up to its wait: of an empty set it returns.
unfoldable pub drain_background_tasks : Tasks → Tasks
drain_background_tasks w =
    if is_empty w.background then w else record w { draining = some w.background }

-- After the wait, which ends with all tasks or with the time.
unfoldable pub cancel_pending : List ℕ → Tasks → Tasks
cancel_pending waited w = record w {
  draining = none;
  cancelling = keep (λ i. is_running (w.status i)) waited ++ w.cancelling;
}

pub data Step (w : Tasks) : Tasks → Type 0 where
  spawned : (i : ℕ) → w.status i ≡ absent → Step w (spawn_task i w)
  -- The coroutine ends, and the event loop will call back.
  ended :
      (i : ℕ) (e : End)
      → w.status i ≡ running
      → Step w (record w { status = becomes i (finished e) w.status })
  completed :
      (i : ℕ) (e : End)
      → w.status i ≡ finished e
      → contains i w.background ≡ true
      → Step w (handle_completion i e w)
  drain : w.draining ≡ none → Step w (drain_background_tasks w)
  waited : (l : List ℕ) → w.draining ≡ some l → Step w (cancel_pending l w)

pub data Steps (w : Tasks) : Tasks → Type 0 where
  here : Steps w w
  next : {a b : Tasks} → Steps w a → Step a b → Steps w b
