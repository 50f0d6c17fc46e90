-- ===== src/Start/Lifecycle/Ends.antt =====
-- How the service of server/src/main.rs ends.
use locally_euclidean.Prelude.{◌≡◌, refl, Bool, true, false, Option, none, some}
use locally_euclidean.Start.Lifecycle.{
  Ended, well, failed, Service, try_join, joined, started, after_round, after_listener, Step,
  interrupted, listener_ended, task_woken, tasks_panicked, Steps, stay, then_step,
}

after_listener-true :
    (result : Ended) (cancelled : Bool)
    → (result ≡ well → cancelled ≡ true)
    → after_listener result cancelled ≡ true
unfolding after_listener
after_listener-true well cancelled late = late refl
after_listener-true failed cancelled late = refl

after_listener_keeps :
    (result : Ended) (cancelled : Bool) → cancelled ≡ true → after_listener result cancelled ≡ true
unfolding after_listener
after_listener_keeps well cancelled e = e
after_listener_keeps failed cancelled e = refl

after_round-well : (cancelled : Bool) → after_round cancelled ≡ some well → cancelled ≡ true
unfolding after_round
after_round-well true e = refl
after_round-well false e = cc

-- Nothing has ended well, and the listener not at all, before the token was cancelled.
record Orderly (s : Service) : Type 0 where
  listener_late : (x : Ended) → s.listener ≡ some x → s.cancelled ≡ true
  tasks_late : s.tasks ≡ some well → s.cancelled ≡ true

Step-Orderly : {s t : Service} → Step s t → Orderly s → Orderly t
Step-Orderly (interrupted s h e) o = record { listener_late = λ x q. refl; tasks_late = λ q. refl }
Step-Orderly (listener_ended s result h e late) o = record {
  listener_late = λ x q. after_listener-true result s.cancelled late;
  tasks_late = λ q. after_listener_keeps result s.cancelled (o.tasks_late q);
}
Step-Orderly (task_woken s h e) o = record {
  listener_late = λ x q. o.listener_late x q;
  tasks_late = λ q. after_round-well s.cancelled q;
}
Step-Orderly (tasks_panicked s h e) o = record {
  listener_late = λ x q. o.listener_late x q;
  tasks_late = λ q. cc;
}

Steps-Orderly : {s t : Service} → Steps s t → Orderly s → Orderly t
Steps-Orderly (stay s) o = o
Steps-Orderly (then_step before step) o = Step-Orderly step (Steps-Orderly before o)

started-Orderly : Orderly started
unfolding started
started-Orderly = record { listener_late = λ x q. cc; tasks_late = λ q. cc }

-- In every state that the service comes to from its start: if the listener has ended, with an error or
-- well, then the token is cancelled, so that the next round of the maintenance task is its last.
pub listener_ended_cancelled :
    (s : Service) (result : Ended)
    → Steps started s
    → s.listener ≡ some result
    → (s.cancelled ≡ true) × (after_round s.cancelled ≡ some well)
unfolding after_round
listener_ended_cancelled s result steps ended =
    let late = (Steps-Orderly steps started-Orderly).listener_late result ended in
    (late, rw late refl)

join_well : (l t : Option Ended) → try_join l t ≡ some well → (l ≡ some well) × (t ≡ some well)
unfolding try_join
join_well (some failed) t e = cc
join_well (some well) t e = (refl, e)
join_well none (some failed) e = cc
join_well none (some well) e = cc
join_well none none e = cc

-- The service never ends well of its own accord: if it has, then the token was cancelled, and both
-- the listener and the maintenance task have ended well.
pub ends_well_cancelled :
    (s : Service)
    → Steps started s
    → joined s ≡ some well
    → (s.cancelled ≡ true) × (s.listener ≡ some well) × (s.tasks ≡ some well)
ends_well_cancelled s steps ended =
    let (listener, tasks) = join_well s.listener s.tasks ended in
    ((Steps-Orderly steps started-Orderly).tasks_late tasks, listener, tasks)
