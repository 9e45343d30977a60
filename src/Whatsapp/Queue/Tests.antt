-- ===== src/Whatsapp/Queue/Tests.antt =====
-- Runs of the outbound queue.
use nestjs_starter.Prelude.{◌≡◌, refl, true, false, none, [], ◌∷◌, ◌++◌, arith}
use nestjs_starter.Exec.{ok, throw, service_unavailable, text}
use nestjs_starter.Whatsapp.Queue.{
  QueueConfig, Job, State, sleeping, sending, initial, random_delay, begin_send, pace, take_job,
  process_loop, settle, start_worker, enqueue_text,
}
use nestjs_starter.Whatsapp.Queue.Validity.{IsValid}
use nestjs_starter.Whatsapp.Queue.Runs.{
  Reach, here, next, enqueues, settles, Reach-IsValid, initial-IsValid,
}
use nestjs_starter.Whatsapp.Queue.Order.{history, accepted, Reach-history}
use nestjs_starter.Whatsapp.Queue.Draining.{Drained, drain}

abbrev config : QueueConfig
config = record { min_delay_ms = 3000; max_delay_ms = 8000; max_queue_size = 2 }

abbrev job : Job
job = record { id = "wa-1"; phone = "+2"; text = "hi"; enqueued_at = 100 }

abbrev sent_first : State
sent_first = record {
  queue = [];
  is_processing = true;
  shutting_down = false;
  last_sent_at = none;
  worker = sending job 100;
  sends = record { job = job; begun = 100 } ∷ [];
}

-- An idle queue sends at once: the position that the caller is told is 0.
first_at_once :
    enqueue_text config true 100 0 "wa-1" "+2" "hi" initial
    ≡ (ok (record { queue_id = "wa-1"; position = 0; enqueued_at = 100 }), sent_first)
unfolding enqueue_text start_worker process_loop take_job pace begin_send
first_at_once = refl

disconnected :
    (enqueue_text config false 100 0 "wa-1" "+2" "hi" initial).0
    ≡ throw (service_unavailable (text "WhatsApp is not connected."))
unfolding enqueue_text
disconnected = refl

abbrev one : State
one = (enqueue_text config true 100 0 "wa-1" "+2" "hi" initial).1

abbrev two : State
two = (enqueue_text config true 150 500 "wa-2" "+3" "yo" one).1

one_sending : one.worker ≡ sending job 100
unfolding enqueue_text start_worker process_loop take_job pace begin_send
one_sending = refl

two_sending : two.worker ≡ sending job 100
unfolding enqueue_text start_worker process_loop take_job pace begin_send
two_sending = refl

-- the second message waits for the drawn delay behind the end of the first send
second_waits :
    (settle config 200 500 two).worker
    ≡ sleeping (record { id = "wa-2"; phone = "+3"; text = "yo"; enqueued_at = 150 }) 3700
unfolding enqueue_text start_worker settle process_loop take_job pace begin_send random_delay
second_waits = refl

abbrev run : Reach config initial (settle config 200 500 two)
run =
    next
      (next (next here (enqueues true 100 0 "wa-1" "+2" "hi"))
        (enqueues true 150 500 "wa-2" "+3" "yo"))
      (settles 200 500 job 100 two_sending (omega arith))

Reach-IsValid_example : IsValid config (settle config 200 500 two)
Reach-IsValid_example = Reach-IsValid config run (initial-IsValid config)

running : (settle config 200 500 two).shutting_down ≡ false
unfolding enqueue_text start_worker settle process_loop take_job pace begin_send random_delay
running = refl

Reach-history_example : history (settle config 200 500 two) ≡ history initial ++ accepted config run
Reach-history_example = Reach-history config run running (initial-IsValid config)

both_accepted :
    accepted config run
    ≡ record { id = "wa-1"; phone = "+2"; text = "hi"; enqueued_at = 100 }
      ∷ record { id = "wa-2"; phone = "+3"; text = "yo"; enqueued_at = 150 }
      ∷ []
unfolding enqueue_text start_worker settle process_loop take_job pace begin_send random_delay
both_accepted = refl

drain_example : Drained config (settle config 200 500 two)
drain_example =
    drain config (settle config 200 500 two) (Reach-IsValid config run (initial-IsValid config))
      running
