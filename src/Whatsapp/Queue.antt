-- ===== src/Whatsapp/Queue.antt =====
-- src/modules/whatsapp/services/whatsapp-queue.service.ts. The worker is an asynchronous loop: it runs
-- from one `await` to the next, and `Worker` says at which it waits. The clock, the random draws, the
-- connection and the moments when a timer or a send ends are arguments. The calls of `sendText` are
-- logged, the latest first.
mod Pacing
pub mod Validity
pub mod Runs
pub mod Order
pub mod Draining
mod Tests
use nestjs_starter.Prelude.{
  ℕ, ◌+◌, ◌-◌, String, Bool, true, false, not, Option, none, some, List, [], ◌∷◌, ◌++◌, ltb, leb,
  length, if◌then◌else◌,
}
use nestjs_starter.Exec.{Exec, service_unavailable, text, pure, gets, modify, throw_if, ◌>>=◌, ◌>>◌}

pub record QueueConfig : Type 0 where
  pub min_delay_ms : ℕ
  pub max_delay_ms : ℕ
  pub max_queue_size : ℕ

pub record Job : Type 0 where
  pub id : String
  pub phone : String
  pub text : String
  pub enqueued_at : ℕ

pub record EnqueueResult : Type 0 where
  pub queue_id : String
  pub position : ℕ
  pub enqueued_at : ℕ

-- a call of `sendText` and its instant
pub record Send : Type 0 where
  pub job : Job
  pub begun : ℕ

-- Where the worker's loop waits: nowhere, in `sleep` until an instant, or in `sendText`.
pub data Worker : Type 0 where
  idle : Worker
  sleeping : Job → ℕ → Worker
  sending : Job → ℕ → Worker

pub record State : Type 0 where
  pub queue : List Job
  pub is_processing : Bool
  pub shutting_down : Bool
  pub last_sent_at : Option ℕ
  pub worker : Worker
  pub sends : List Send

abbrev pub initial : State
initial = record {
  queue = [];
  is_processing = false;
  shutting_down = false;
  last_sent_at = none;
  worker = idle;
  sends = [];
}

module _ (c : QueueConfig) where
  -- `draw` is what `crypto.randomInt(0, span + 1)` returns
  pub random_delay : ℕ → ℕ
  random_delay draw = c.min_delay_ms + draw

  -- `return` inside the loop, with its `finally`
  pub finish : State → State
  finish s = record s { is_processing = false; worker = idle }

  pub begin_send : ℕ → Job → State → State
  begin_send now job s = record s {
    worker = sending job now;
    sends = record { job = job; begun = now } ∷ s.sends;
  }

  -- Wait for what remains of the delay since the last send, if anything does, and send.
  pub pace : ℕ → ℕ → Option ℕ → Job → State → State
  pace now draw none job s = begin_send now job s
  pace now draw (some last) job s =
      if ltb now (last + random_delay draw)
      then record s { worker = sleeping job (last + random_delay draw) }
      else begin_send now job s

  pub take_job : ℕ → ℕ → List Job → State → State
  take_job now draw [] s = finish s
  take_job now draw (job ∷ rest) s = pace now draw s.last_sent_at job (record s { queue = rest })

  -- the head of the loop in `processLoop`, up to its next `await`
  pub process_loop : ℕ → ℕ → State → State
  process_loop now draw s = if s.shutting_down then finish s else take_job now draw s.queue s

  -- the loop goes on behind `await this.sleep(remaining)`
  pub wake : ℕ → Job → State → State
  wake now job s = if s.shutting_down then finish s else begin_send now job s

  -- the loop goes on behind `sendText`, which returned or threw
  pub settle : ℕ → ℕ → State → State
  settle now draw s = process_loop now draw (record s { last_sent_at = some now })

  pub start_worker : ℕ → ℕ → State → State
  start_worker now draw s =
      if s.is_processing then s else process_loop now draw (record s { is_processing = true })

  pub enqueue_text : Bool → ℕ → ℕ → String → String → String → Exec State EnqueueResult
  enqueue_text connected now draw id phone message = do
    throw_if (not connected) (service_unavailable (text "WhatsApp is not connected."))
    depth ← gets (λ s. length s.queue)
    throw_if (leb c.max_queue_size depth)
        (service_unavailable (text "WhatsApp queue is full. Try again later."))
    modify (λ s. record s {
      queue = s.queue ++ record { id = id; phone = phone; text = message; enqueued_at = now } ∷ [];
    })
    modify (start_worker now draw)
    position ← gets (λ s. length s.queue)
    pure (record { queue_id = id; position = position; enqueued_at = now })

  pub size : State → ℕ
  size s = length s.queue

  pub on_module_destroy : State → State
  on_module_destroy s = record s { shutting_down = true }
