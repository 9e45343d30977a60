-- ===== src/Whatsapp/Queue/Draining.antt =====
-- The queue drains: src/modules/whatsapp/services/whatsapp-queue.service.ts.
use nestjs_starter.Prelude.{
  ℕ, zero, suc, ◌+◌, ◌≤◌, ◌<◌, ◌≡◌, refl, ap, ◌∙◌, true, false, Option, none, some, List, [], ◌∷◌,
  ltb, length, ◌⊎◌, inl, inr, arith, Bool-cases,
}
use nestjs_starter.Whatsapp.Queue.{
  QueueConfig, Job, Worker, idle, sleeping, sending, State, random_delay, finish, begin_send, pace,
  take_job, process_loop, wake, settle,
}
use nestjs_starter.Whatsapp.Queue.Validity.{IsValid}
use nestjs_starter.Whatsapp.Queue.Runs.{Step, wakes, settles, Reach, here, next}
use nestjs_starter.Whatsapp.Queue.Order.{
  history, wake-history, settle-history, shutting-process_loop,
}

module _ (c : QueueConfig) where
  Reach_trans : {s t u : State} → Reach c s t → Reach c t u → Reach c s u
  Reach_trans r here = r
  Reach_trans r (next q st) = next (Reach_trans r q) st

  -- a state in which nothing waits, and which has sent every job of the line
  pub record Drained (s : State) : Type 0 where
    pub end : State
    pub run : Reach c s end
    pub empty : end.queue ≡ []
    pub idle : end.worker ≡ idle
    pub same : history end ≡ history s

  Drained-after : {s t : State} → Step c s t → history t ≡ history s → Drained t → Drained s
  Drained-after st e d = record {
    end = d.end;
    run = Reach_trans (next here st) d.run;
    empty = d.empty;
    idle = d.idle;
    same = d.same ∙ e;
  }

  -- how the loop's head leaves the worker
  data Taken (queue : List Job) (s : State) : Type 0 where
    stopped : s.worker ≡ idle → s.queue ≡ [] → Taken queue s
    asleep :
        (job : Job) (until : ℕ)
        → s.worker ≡ sleeping job until
        → suc (length s.queue) ≤ length queue
        → Taken queue s
    sends :
        (job : Job) (begun : ℕ)
        → s.worker ≡ sending job begun
        → suc (length s.queue) ≤ length queue
        → Taken queue s

  pace-Taken :
      (now draw : ℕ) (last : Option ℕ) (job : Job) (queue : List Job) (s : State)
      → suc (length s.queue) ≤ length queue
      → Taken queue (pace c now draw last job s)
  unfolding pace begin_send
  pace-Taken now draw none job queue s h = sends job now refl h
  pace-Taken now draw (some last) job queue s h =
      elim (Bool-cases (ltb now (last + random_delay c draw))) [
        | inl w ↦ rw w (asleep job _ refl h)
        | inr w ↦ rw w (sends job now refl h)
      ]

  take_job-Taken :
      (now draw : ℕ) (queue : List Job) (s : State)
      → s.queue ≡ queue
      → Taken queue (take_job c now draw queue s)
  unfolding take_job finish
  take_job-Taken now draw [] s e = stopped refl e
  take_job-Taken now draw (job ∷ rest) s e =
      pace-Taken now draw s.last_sent_at job (job ∷ rest) (record s { queue = rest }) (omega arith)

  process_loop-Taken :
      (now draw : ℕ) (s : State)
      → s.shutting_down ≡ false
      → Taken s.queue (process_loop c now draw s)
  unfolding process_loop
  process_loop-Taken now draw s d = simp d (take_job-Taken now draw s.queue s refl)

  settle-Taken :
      (now draw : ℕ) (s : State) → s.shutting_down ≡ false → Taken s.queue (settle c now draw s)
  unfolding settle
  settle-Taken now draw s d = process_loop-Taken now draw (record s { last_sent_at = some now }) d

  shutting-settle :
      (now draw : ℕ) (s : State) → (settle c now draw s).shutting_down ≡ s.shutting_down
  unfolding settle
  shutting-settle now draw s =
      shutting-process_loop c now draw (record s { last_sent_at = some now })

  drain_sleeping :
      (job : Job) (until : ℕ) (s : State)
      → s.worker ≡ sleeping job until
      → s.shutting_down ≡ false
      → Drained (wake c until job s)
      → Drained s
  drain_sleeping job until s w d =
      Drained-after (wakes until job until w (omega arith)) (wake-history c until job until s w d)

  wake_lem :
      (now : ℕ) (job : Job) (s : State)
      → s.shutting_down ≡ false
      → ((wake c now job s).worker ≡ sending job now)
        × ((wake c now job s).queue ≡ s.queue)
        × ((wake c now job s).shutting_down ≡ false)
  unfolding wake begin_send
  wake_lem now job s d = simp d (refl, refl, refl)

  module _ (n : ℕ)
      (rec : (job : Job) (begun : ℕ) (s : State)
        → length s.queue < n
        → s.worker ≡ sending job begun
        → s.shutting_down ≡ false
        → Drained s) where
    drain-Taken :
        (queue : List Job) (s : State)
        → length queue ≤ n
        → s.shutting_down ≡ false
        → Taken queue s
        → Drained s
    drain-Taken queue s h d (stopped i e) = record {
      end = s;
      run = here;
      empty = e;
      idle = i;
      same = refl;
    }
    drain-Taken queue s h d (asleep job until w l) =
        let (w', q, d') = wake_lem until job s d in
        drain_sleeping job until s w d
          (rec job until (wake c until job s) (omega (arith, h, l, ap (length {A = Job}) q)) w' d')
    drain-Taken queue s h d (sends job begun w l) = rec job begun s (omega arith) w d

  -- by the number of jobs that wait
  drain_sending :
      (n : ℕ) (job : Job) (begun : ℕ) (s : State)
      → length s.queue < n
      → s.worker ≡ sending job begun
      → s.shutting_down ≡ false
      → Drained s
  drain_sending zero job begun s h w d = elim h [ ]
  drain_sending (suc n) job begun s h w d =
      Drained-after (settles begun 0 job begun w (omega arith))
        (settle-history c begun 0 job begun s w d)
        (drain-Taken n (drain_sending n) s.queue (settle c begun 0 s) (omega arith)
          (shutting-settle begun 0 s ∙ d) (settle-Taken begun 0 s d))

  drain_worker :
      (worker : Worker) (s : State)
      → s.worker ≡ worker
      → IsValid c s
      → s.shutting_down ≡ false
      → Drained s
  drain_worker idle s w v d = record {
    end = s;
    run = here;
    empty = served (v.served w);
    idle = w;
    same = refl;
  }
    where
      served : (s.shutting_down ≡ true) ⊎ (s.queue ≡ []) → s.queue ≡ []
      served (inl down) = absurd (cc)
      served (inr e) = e
  drain_worker (sleeping job until) s w v d =
      let (w', q, d') = wake_lem until job s d in
      drain_sleeping job until s w d (
        drain_sending (suc (length s.queue)) job until (wake c until job s)
          (omega (arith, ap (length {A = Job}) q)) w' d')
  drain_worker (sending job begun) s w v d =
      drain_sending (suc (length s.queue)) job begun s (omega arith) w d

  -- The queue drains: from every valid state of a module that is not destroyed there is a run to a
  -- state with an empty queue and an idle worker, whose line of jobs is the same: every accepted
  -- message was handed to `sendText`, in its place.
  pub drain : (s : State) → IsValid c s → s.shutting_down ≡ false → Drained s
  drain s v d = drain_worker s.worker s refl v d
