-- ===== src/Whatsapp/Queue/Validity.antt =====
-- The invariant of the queue of src/modules/whatsapp/services/whatsapp-queue.service.ts, kept by each
-- stretch of the worker's loop and by each call.
use nestjs_starter.Prelude.{
  ℕ, ◌+◌, ◌≤◌, ◌≡◌, refl, String, Bool, true, false, Option, none, some, List, [], ◌∷◌, ltb, leb,
  length, length-append, ap, ◌∙◌, ◌⊎◌, inl, inr, arith, Bool-cases,
}
use nestjs_starter.Whatsapp.Queue.{
  QueueConfig, Job, Send, idle, sleeping, sending, State, random_delay, finish, begin_send, pace,
  take_job, process_loop, wake, settle, start_worker, enqueue_text, on_module_destroy,
}
use nestjs_starter.Whatsapp.Queue.Pacing.{
  is_busy, Spaced, BegunBy, Paced, Paced-sleeping, Paced-sending, idle-Paced, idle_of_not_busy,
}

module _ (c : QueueConfig) where
  pub record IsValid (s : State) : Type 0 where
    pub processing : is_busy s.worker ≡ s.is_processing
    -- no job waits while nobody works, but in a shutdown
    pub served : s.worker ≡ idle → (s.shutting_down ≡ true) ⊎ (s.queue ≡ [])
    pub bounded : length s.queue ≤ c.max_queue_size
    pub spaced : Spaced c.min_delay_ms s.sends
    pub paced : Paced c.min_delay_ms s.worker s.last_sent_at s.sends

  -- What the loop's head needs: the worker has nothing in hand, and the last send is known.
  record IsReady (s : State) : Type 0 where
    processing : s.is_processing ≡ true
    bounded : length s.queue ≤ c.max_queue_size
    spaced : Spaced c.min_delay_ms s.sends
    paced : Paced c.min_delay_ms idle s.last_sent_at s.sends

  Spaced-begin :
      (now last : ℕ) (job : Job) (sends : List Send)
      → BegunBy sends last
      → last + c.min_delay_ms ≤ now
      → Spaced c.min_delay_ms sends
      → Spaced c.min_delay_ms (record { job = job; begun = now } ∷ sends)
  Spaced-begin now last job [] b h s = tt
  Spaced-begin now last job (x ∷ rest) b h s = (omega arith, s)

  Spaced-first :
      (now : ℕ) (job : Job) (sends : List Send)
      → sends ≡ []
      → Spaced c.min_delay_ms (record { job = job; begun = now } ∷ sends)
  Spaced-first now job sends e = rw e tt

  finish-IsValid :
      (s : State) → (s.shutting_down ≡ true) ⊎ (s.queue ≡ []) → IsReady s → IsValid (finish c s)
  unfolding finish
  finish-IsValid s why r = record {
    processing = refl;
    served = λ _. why;
    bounded = r.bounded;
    spaced = r.spaced;
    paced = r.paced;
  }

  pace-IsValid :
      (now draw : ℕ) (last : Option ℕ) (job : Job) (s : State)
      → s.is_processing ≡ true
      → length s.queue ≤ c.max_queue_size
      → Spaced c.min_delay_ms s.sends
      → s.last_sent_at ≡ last
      → Paced c.min_delay_ms idle last s.sends
      → IsValid (pace c now draw last job s)
  unfolding pace begin_send random_delay
  pace-IsValid now draw none job s p b sp e pa = record {
    processing = rw p;
    served = λ h. absurd (cc);
    bounded = b;
    spaced = Spaced-first now job s.sends pa;
    paced = refl;
  }
  pace-IsValid now draw (some last) job s p b sp e pa =
      elim (Bool-cases (ltb now (last + (c.min_delay_ms + draw)))) [
        | inl w ↦ rw w (record {
          processing = rw p;
          served = λ h. absurd (cc);
          bounded = b;
          spaced = sp;
          paced = rw e (pa, omega arith);
        })
        | inr w ↦ rw w (record {
          processing = rw p;
          served = λ h. absurd (cc);
          bounded = b;
          spaced = Spaced-begin now last job s.sends pa (ground arith) sp;
          paced = refl;
        })
      ]

  take_job-IsValid :
      (now draw : ℕ) (queue : List Job) (s : State)
      → s.queue ≡ queue
      → IsReady s
      → IsValid (take_job c now draw queue s)
  unfolding take_job
  take_job-IsValid now draw [] s e r = finish-IsValid s (inr e) r
  take_job-IsValid now draw (job ∷ rest) s e r =
      pace-IsValid now draw s.last_sent_at job (record s { queue = rest }) r.processing
        (omega (arith, r.bounded, ap (length {A = Job}) e)) r.spaced refl r.paced

  process_loop-IsValid :
      (now draw : ℕ) (s : State) → IsReady s → IsValid (process_loop c now draw s)
  unfolding process_loop
  process_loop-IsValid now draw s r = elim (Bool-cases s.shutting_down) [
    | inl d ↦ simp d (finish-IsValid s (inl d) r)
    | inr d ↦ simp d (take_job-IsValid now draw s.queue s refl r)
  ]

  pub wake-IsValid :
      (now : ℕ) (job : Job) (until : ℕ) (s : State)
      → s.worker ≡ sleeping job until
      → until ≤ now
      → IsValid s
      → IsValid (wake c now job s)
  unfolding wake finish begin_send
  wake-IsValid now job until s w h v =
      let (l, e, by, gap) =
        Paced-sleeping c.min_delay_ms s.worker s.last_sent_at s.sends job until w v.paced in
      let busy : s.is_processing ≡ true = cc (v.processing, ap is_busy w) in
      elim (Bool-cases s.shutting_down) [
        | inl d ↦ simp d (record {
          processing = refl;
          served = λ _. inl refl;
          bounded = v.bounded;
          spaced = v.spaced;
          paced = simp e by;
        })
        | inr d ↦ simp d (record {
          processing = simp busy;
          served = λ x. absurd (cc);
          bounded = v.bounded;
          spaced = Spaced-begin now l job s.sends by (omega arith) v.spaced;
          paced = refl;
        })
      ]

  pub settle-IsValid :
      (now draw begun : ℕ) (job : Job) (s : State)
      → s.worker ≡ sending job begun
      → begun ≤ now
      → IsValid s
      → IsValid (settle c now draw s)
  unfolding settle
  settle-IsValid now draw begun job s w h v =
      process_loop-IsValid now draw (record s { last_sent_at = some now })
        (record {
          processing = cc (v.processing, ap is_busy w);
          bounded = v.bounded;
          spaced = v.spaced;
          paced =
              Paced-sending c.min_delay_ms s.worker s.last_sent_at s.sends job begun now w h
                v.paced;
        })

  -- a job was appended to the queue of a valid state, within its bound
  start_worker-IsValid :
      (now draw : ℕ) (queue : List Job) (s : State)
      → length queue ≤ c.max_queue_size
      → IsValid s
      → IsValid (start_worker c now draw (record s { queue = queue }))
  unfolding start_worker
  start_worker-IsValid now draw queue s b v = elim (Bool-cases s.is_processing) [
    | inl p ↦ simp p (record {
      processing = v.processing ∙ p;
      served = λ i. absurd (cc (v.processing, ap is_busy i));
      bounded = b;
      spaced = v.spaced;
      paced = v.paced;
    })
    | inr p ↦ simp p (
        process_loop-IsValid now draw (record s { queue = queue; is_processing = true })
          (record {
            processing = refl;
            bounded = b;
            spaced = v.spaced;
            paced =
                idle-Paced c.min_delay_ms s.worker s.last_sent_at s.sends
                  (idle_of_not_busy s.worker (cc (v.processing))) v.paced;
          }))
  ]

  pub enqueue_text-IsValid :
      (connected : Bool) (now draw : ℕ) (id phone message : String) (s : State)
      → IsValid s
      → IsValid (enqueue_text c connected now draw id phone message s).1
  unfolding enqueue_text
  enqueue_text-IsValid false now draw id phone message s v = v
  enqueue_text-IsValid true now draw id phone message s v =
      elim (Bool-cases (leb c.max_queue_size (length s.queue))) [
        | inl f ↦ simp f v
        | inr f ↦ simp f (
            start_worker-IsValid now draw _ s
              (ground (
                arith,
                f,
                length-append s.queue
                    (record { id = id; phone = phone; text = message; enqueued_at = now } ∷ []),
              ))
              v)
      ]

  pub on_module_destroy-IsValid : (s : State) → IsValid s → IsValid (on_module_destroy c s)
  unfolding on_module_destroy
  on_module_destroy-IsValid s v = record {
    processing = v.processing;
    served = λ _. inl refl;
    bounded = v.bounded;
    spaced = v.spaced;
    paced = v.paced;
  }
