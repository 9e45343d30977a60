-- ===== src/Whatsapp/Queue/Runs.antt =====
-- Every interleaving of callers, timers, sends and the shutdown, over
-- src/modules/whatsapp/services/whatsapp-queue.service.ts.
use nestjs_starter.Prelude.{ℕ, ◌≤◌, ◌≡◌, refl, String, Bool, inr, arith}
use nestjs_starter.Whatsapp.Queue.{
  QueueConfig, Job, sleeping, sending, State, initial, wake, settle, enqueue_text,
  on_module_destroy,
}
use nestjs_starter.Whatsapp.Queue.Validity.{
  IsValid, wake-IsValid, settle-IsValid, enqueue_text-IsValid, on_module_destroy-IsValid,
}

module _ (c : QueueConfig) where
  -- Callers, the timer, the end of a send and the shutdown, in any order. The timer fires no earlier
  -- than it was set for, and a send ends no earlier than it began.
  pub data Step (s : State) : State → Type 0 where
    enqueues :
        (connected : Bool) (now draw : ℕ) (id phone message : String)
        → Step s (enqueue_text c connected now draw id phone message s).1
    wakes :
        (now : ℕ) (job : Job) (until : ℕ)
        → s.worker ≡ sleeping job until
        → until ≤ now
        → Step s (wake c now job s)
    settles :
        (now draw : ℕ) (job : Job) (begun : ℕ)
        → s.worker ≡ sending job begun
        → begun ≤ now
        → Step s (settle c now draw s)
    destroys : Step s (on_module_destroy c s)

  pub data Reach (s : State) : State → Type 0 where
    here : Reach s s
    next : {t u : State} → Reach s t → Step t u → Reach s u

  Step-IsValid : {s t : State} → Step s t → IsValid c s → IsValid c t
  Step-IsValid {s} (enqueues connected now draw id phone message) v =
      enqueue_text-IsValid c connected now draw id phone message s v
  Step-IsValid {s} (wakes now job until w h) v = wake-IsValid c now job until s w h v
  Step-IsValid {s} (settles now draw job begun w h) v = settle-IsValid c now draw begun job s w h v
  Step-IsValid {s} destroys v = on_module_destroy-IsValid c s v

  -- Whatever the interleaving, the queue stays within its bound, one worker serves it (`isProcessing`
  -- says exactly whether the loop runs), a job never waits without a worker unless the module was
  -- destroyed, and any two successive sends begin at least the minimum delay apart.
  pub Reach-IsValid : {s t : State} → Reach s t → IsValid c s → IsValid c t
  Reach-IsValid here v = v
  Reach-IsValid (next r st) v = Step-IsValid st (Reach-IsValid r v)

  pub initial-IsValid : IsValid c initial
  initial-IsValid = record {
    processing = refl;
    served = λ _. inr refl;
    bounded = omega arith;
    spaced = tt;
    paced = refl;
  }
