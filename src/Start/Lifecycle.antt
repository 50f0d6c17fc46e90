-- ===== src/Start/Lifecycle.antt =====
-- The service of server/src/main.rs: the listener and the maintenance task run side by side under
-- `try_join!`, and share a token that says that they should end.
pub mod Ends
use locally_euclidean.Prelude.{◌≡◌, Bool, true, false, Option, none, some}

-- How one of the two has ended: well, or with an error (`Failed to listen`, or the task has panicked).
pub data Ended : Type 0 where
  well failed : Ended

pub record Service : Type 0 where
  pub cancelled : Bool
  pub listener : Option Ended
  pub tasks : Option Ended

-- `try_join!`: the first error ends it, and so does the end of both.
unfoldable pub try_join : Option Ended → Option Ended → Option Ended
try_join (some failed) _ = some failed
try_join (some well) tasks = tasks
try_join none (some failed) = some failed
try_join none _ = none

abbrev pub joined : Service → Option Ended
joined s = try_join s.listener s.tasks

unfoldable pub started : Service
started = record { cancelled = false; listener = none; tasks = none }

-- A round of the task's loop, on what it finds of the token: it breaks, or goes on (a batch is run, by
-- `maintenance` of Backend/Cleanup).
unfoldable pub after_round : Bool → Option Ended
after_round true = some well
after_round false = none

-- `if res.is_err() { terminate.cancel(); }`, on the result of the listener and the token.
unfoldable pub after_listener : Ended → Bool → Bool
after_listener failed cancelled = true
after_listener well cancelled = cancelled

-- What may happen to a service that has not ended. That the listener ends well only once the token is
-- cancelled is what axum documents of `with_graceful_shutdown`.
pub data Step : Service → Service → Type 0 where
  -- `ctrl_c`, once, and then `interrupted.cancel()`.
  interrupted :
      (s : Service) → joined s ≡ none → s.cancelled ≡ false → Step s (record s { cancelled = true })
  -- The listener ends: with an error at any time, and well by its graceful shutdown.
  listener_ended :
      (s : Service) (result : Ended)
      → joined s ≡ none
      → s.listener ≡ none
      → (result ≡ well → s.cancelled ≡ true)
      → Step s (record s { cancelled = after_listener result s.cancelled; listener = some result })
  -- The task wakes, on a tick or by the token.
  task_woken :
      (s : Service)
      → joined s ≡ none
      → s.tasks ≡ none
      → Step s (record s { tasks = after_round s.cancelled })
  -- The task panics, which is an error of its handle.
  tasks_panicked :
      (s : Service) → joined s ≡ none → s.tasks ≡ none → Step s (record s { tasks = some failed })

pub data Steps : Service → Service → Type 0 where
  stay : (s : Service) → Steps s s
  then_step : {s t u : Service} → Steps s t → Step t u → Steps s u
