-- ===== src/Whatsapp/Queue/Order.antt =====
-- First in, first out: src/modules/whatsapp/services/whatsapp-queue.service.ts.
use mathlib.Core.List.{reverse, reverse-cons, map-append, append_assoc, append-nil}
use nestjs_starter.Prelude.{
  ℕ, ◌+◌, ◌≡◌, refl, sym, ap, ◌∙◌, String, Bool, true, false, ◌&&◌, Option, none, some, List, [],
  ◌∷◌, ◌++◌, map, ltb, leb, length, inl, inr, arith, Bool-cases, if◌then◌else◌,
}
use nestjs_starter.Exec.{Result, ok, throw}
use nestjs_starter.Whatsapp.Queue.{
  QueueConfig, EnqueueResult, Job, Send, Worker, idle, sleeping, sending, State, random_delay,
  finish, begin_send, pace, take_job, process_loop, wake, settle, start_worker, enqueue_text,
  on_module_destroy,
}
use nestjs_starter.Whatsapp.Queue.Pacing.{idle_of_not_busy}
use nestjs_starter.Whatsapp.Queue.Validity.{IsValid}
use nestjs_starter.Whatsapp.Queue.Runs.{
  Step, enqueues, wakes, settles, destroys, Reach, here, next, Reach-IsValid,
}

-- the jobs that were handed to `sendText`, in order
abbrev pub dispatched : List Send → List Job
dispatched sends = map (λ (x : Send). x.job) (reverse sends)

-- the job that the worker took and did not send yet
abbrev pub in_hand : Worker → List Job
in_hand idle = []
in_hand (sleeping job until) = job ∷ []
in_hand (sending job begun) = []

-- All accepted jobs, in the order in which they are, or will be, sent.
abbrev pub history : State → List Job
history s = dispatched s.sends ++ (in_hand s.worker ++ s.queue)

-- the job of a call, by its answer
abbrev pub accepted_by : Result EnqueueResult → Job → List Job
accepted_by (ok r) job = job ∷ []
accepted_by (throw e) job = []

module _ (c : QueueConfig) where
  dispatched-cons :
      (x : Send) (sends : List Send) (rest : List Job)
      → dispatched (x ∷ sends) ++ rest ≡ dispatched sends ++ (x.job ∷ rest)
  dispatched-cons x sends rest = simp (reverse-cons, map-append, append_assoc)

  history-pace :
      (now draw : ℕ) (last : Option ℕ) (job : Job) (s : State)
      → history (pace c now draw last job s) ≡ dispatched s.sends ++ (job ∷ s.queue)
  unfolding pace begin_send
  history-pace now draw none job s = dispatched-cons _ s.sends s.queue
  history-pace now draw (some last) job s =
      elim (Bool-cases (ltb now (last + random_delay c draw))) [
        | inl w ↦ rw w
        | inr w ↦ rw w (dispatched-cons _ s.sends s.queue)
      ]

  history-take_job :
      (now draw : ℕ) (queue : List Job) (s : State)
      → s.queue ≡ queue
      → history (take_job c now draw queue s) ≡ dispatched s.sends ++ queue
  unfolding take_job finish
  history-take_job now draw [] s e = ap (λ q. dispatched s.sends ++ q) e
  history-take_job now draw (job ∷ rest) s e =
      history-pace now draw s.last_sent_at job (record s { queue = rest })

  -- The loop's head sends what waits, in order.
  history-process_loop :
      (now draw : ℕ) (s : State)
      → s.shutting_down ≡ false
      → history (process_loop c now draw s) ≡ dispatched s.sends ++ s.queue
  unfolding process_loop
  history-process_loop now draw s d = simp d (history-take_job now draw s.queue s refl)

  history-start_worker :
      (now draw : ℕ) (job : Job) (s : State)
      → IsValid c s
      → s.shutting_down ≡ false
      → history (start_worker c now draw (record s { queue = s.queue ++ job ∷ [] }))
        ≡ history s ++ job ∷ []
  unfolding start_worker
  history-start_worker now draw job s v d = elim (Bool-cases s.is_processing) [
    | inl p ↦ simp p (simp append_assoc)
    | inr p ↦
        let i = idle_of_not_busy s.worker (v.processing ∙ p) in
        simp p (
          history-process_loop now draw
            (record s { queue = s.queue ++ job ∷ []; is_processing = true }) d
          ∙ simp (i, append_assoc))
  ]

  -- An accepted message goes to the end of the line, behind all that were accepted before it; a
  -- refused one changes nothing.
  pub enqueue_text-history :
      (connected : Bool) (now draw : ℕ) (id phone message : String) (s : State)
      → IsValid c s
      → s.shutting_down ≡ false
      → (if connected && ltb (length s.queue) c.max_queue_size
          then history (enqueue_text c connected now draw id phone message s).1
            ≡ history s ++ record { id = id; phone = phone; text = message; enqueued_at = now } ∷ []
          else (enqueue_text c connected now draw id phone message s).1 ≡ s)
  unfolding enqueue_text
  enqueue_text-history false now draw id phone message s v d = refl
  enqueue_text-history true now draw id phone message s v d =
      elim (Bool-cases (leb c.max_queue_size (length s.queue))) [
        | inl f ↦
            let full : ltb (length s.queue) c.max_queue_size ≡ false = ground arith in
            simp (full, f)
        | inr f ↦
            let room : ltb (length s.queue) c.max_queue_size ≡ true = ground arith in
            simp (room, f) (history-start_worker now draw _ s v d)
      ]

  pub shutting-process_loop :
      (now draw : ℕ) (s : State) → (process_loop c now draw s).shutting_down ≡ s.shutting_down
  unfolding process_loop take_job pace begin_send finish
  shutting-process_loop now draw s = ground arith

  shutting-enqueue_text :
      (connected : Bool) (now draw : ℕ) (id phone message : String) (s : State)
      → (enqueue_text c connected now draw id phone message s).1.shutting_down ≡ s.shutting_down
  unfolding enqueue_text start_worker
  shutting-enqueue_text false now draw id phone message s = refl
  shutting-enqueue_text true now draw id phone message s = ground (
    arith,
    shutting-process_loop now draw (record s {
      queue = s.queue ++ record { id = id; phone = phone; text = message; enqueued_at = now } ∷ [];
      is_processing = true;
    }),
  )

  -- The module does not come back from its shutdown.
  Step-running : {s t : State} → Step c s t → t.shutting_down ≡ false → s.shutting_down ≡ false
  unfolding wake settle finish begin_send on_module_destroy
  Step-running {s} (enqueues connected now draw id phone message) d =
      cc (shutting-enqueue_text connected now draw id phone message s)
  Step-running {s} (wakes now job until w h) d = ground arith
  Step-running {s} (settles now draw job begun w h) d =
      cc (shutting-process_loop now draw (record s { last_sent_at = some now }))
  Step-running destroys d = cc

  pub wake-history :
      (now : ℕ) (job : Job) (until : ℕ) (s : State)
      → s.worker ≡ sleeping job until
      → s.shutting_down ≡ false
      → history (wake c now job s) ≡ history s
  unfolding wake begin_send
  wake-history now job until s w d = simp (d, w) (dispatched-cons _ s.sends s.queue)

  pub settle-history :
      (now draw : ℕ) (job : Job) (begun : ℕ) (s : State)
      → s.worker ≡ sending job begun
      → s.shutting_down ≡ false
      → history (settle c now draw s) ≡ history s
  unfolding settle
  settle-history now draw job begun s w d =
      history-process_loop now draw (record s { last_sent_at = some now }) d ∙ simp w

  abbrev pub asked_of : {s t : State} → Step c s t → List Job
  asked_of {s} (enqueues connected now draw id phone message) =
      accepted_by (enqueue_text c connected now draw id phone message s).0
        (record { id = id; phone = phone; text = message; enqueued_at = now })
  asked_of (wakes now job until w h) = []
  asked_of (settles now draw job begun w h) = []
  asked_of destroys = []

  -- The jobs that the callers of a run asked for, in the order of their calls, without those that
  -- were refused.
  abbrev pub accepted : {s t : State} → Reach c s t → List Job
  accepted here = []
  accepted (next r st) = accepted r ++ asked_of st

  enqueue_text-extends :
      (connected : Bool) (now draw : ℕ) (id phone message : String) (s : State)
      → IsValid c s
      → s.shutting_down ≡ false
      → history (enqueue_text c connected now draw id phone message s).1
        ≡ history s
          ++ accepted_by
              (enqueue_text c connected now draw id phone message s).0
              (record { id = id; phone = phone; text = message; enqueued_at = now })
  unfolding enqueue_text
  enqueue_text-extends false now draw id phone message s v d = sym (append-nil _)
  enqueue_text-extends true now draw id phone message s v d =
      elim (Bool-cases (leb c.max_queue_size (length s.queue))) [
        | inl f ↦ simp f (sym (append-nil _))
        | inr f ↦ simp f (history-start_worker now draw _ s v d)
      ]

  Step-history :
      {s t : State}
      → (st : Step c s t) → t.shutting_down ≡ false
      → IsValid c s
      → history t ≡ history s ++ asked_of st
  Step-history {s} (enqueues connected now draw id phone message) d v =
      enqueue_text-extends connected now draw id phone message s v
        (Step-running (enqueues connected now draw id phone message) d)
  Step-history {s} (wakes now job until w h) d v =
      wake-history now job until s w (Step-running (wakes now job until w h) d) ∙ sym (append-nil _)
  Step-history {s} (settles now draw job begun w h) d v =
      settle-history now draw job begun s w (Step-running (settles now draw job begun w h) d)
      ∙ sym (append-nil _)
  Step-history destroys d v = absurd (unfold on_module_destroy in cc)

  -- First in, first out: as long as the module is not destroyed, the line of jobs (those sent, in
  -- the order of their sends, then the one in hand, then the queue) is, behind what it was before,
  -- the jobs of the calls that were answered with a queue id, in the order of the calls, each once,
  -- with its text and its phone, whatever the interleaving.
  pub Reach-history :
      {s t : State}
      → (r : Reach c s t) → t.shutting_down ≡ false
      → IsValid c s
      → history t ≡ history s ++ accepted r
  Reach-history here d v = sym (append-nil _)
  Reach-history {s} (next r st) d v =
      let before = Reach-history r (Step-running st d) v in
      let more = Step-history st d (Reach-IsValid c r v) in
      more ∙ ap (λ l. l ++ asked_of st) before ∙ append_assoc (history s) (accepted r) (asked_of st)
