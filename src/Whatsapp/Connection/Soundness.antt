-- ===== src/Whatsapp/Connection/Soundness.antt =====
-- Nobody waits for a QR code that cannot come: src/modules/whatsapp/services/whatsapp.service.ts.
use nestjs_starter.Prelude.{
  ℕ, String, Bool, true, false, ◌||◌, ◌≡◌, refl, ap, ◌∙◌, Option, none, some, List, [], ◌∷◌, arith,
  Bool-cases, inl, inr,
}
use nestjs_starter.Text.{is_empty}
use nestjs_starter.Storage.Provider.{Provider}
use nestjs_starter.Whatsapp.Auth.{Store}
use nestjs_starter.Whatsapp.Connection.{
  Answer, resolved, Phase, opened, closed, other_phase, Update, Service, initial, answer_waiters,
  ensure_socket, qr_or_wait, get_qr_base64, go_on, socket_started, start_failed, teardown, on_qr,
  on_close, on_connection, handle_connection_update, restart_goes_on, time_out, is_logged_out,
  without, is_waiting, rejected, closed_text,
}
use nestjs_starter.Exec.{service_unavailable, text}
use nestjs_starter.Whatsapp.Connection.Answers.{
  Event, boots, starts, fails, restarts, updates, asks, times_out, tears_down, step, run,
}

module _ {P : Provider String} where
  -- A connected service has a socket, and none that waits for a QR code; a socket is started only
  -- where there is none; who awaits a start has one to await.
  pub record IsSound (s : Service P) : Type 0 where
    pub attached : s.connected ≡ true → s.sock ≡ true
    pub starting : s.start_promise ≡ true → s.sock ≡ false
    pub served : s.connected ≡ true → s.waiters ≡ []
    pub awaited : s.start_promise ≡ false → s.booting ≡ []

  initial-IsSound : (auth : Store P) → IsSound (initial P auth)
  unfolding initial
  initial-IsSound auth = record {
    attached = λ e. absurd (cc);
    starting = λ e. refl;
    served = λ e. refl;
    awaited = λ e. refl;
  }

  answer_waiters-IsSound : (a : Answer) (s : Service P) → IsSound s → IsSound (answer_waiters P a s)
  unfolding answer_waiters
  answer_waiters-IsSound a s d = record {
    attached = d.attached;
    starting = d.starting;
    served = λ e. refl;
    awaited = d.awaited;
  }

  ensure_socket-IsSound : (s : Service P) → IsSound s → IsSound (ensure_socket P s)
  unfolding ensure_socket
  ensure_socket-IsSound s d = elim (Bool-cases (s.sock || s.start_promise)) [
    | inl t ↦ simp t d
    | inr f ↦ simp f (record {
      attached = d.attached;
      starting = λ e. ground (arith, f);
      served = d.served;
      awaited = λ e. absurd (cc);
    })
  ]

  qr_or_wait-IsSound :
      (id : ℕ) (o : Option String) (s : Service P)
      → s.connected ≡ false
      → IsSound s
      → IsSound (qr_or_wait P id o s)
  qr_or_wait-IsSound id none s c d = record {
    attached = d.attached;
    starting = d.starting;
    served = λ e. absurd (cc (c, e));
    awaited = d.awaited;
  }
  qr_or_wait-IsSound id (some qr) s c d = record {
    attached = d.attached;
    starting = d.starting;
    served = d.served;
    awaited = d.awaited;
  }

  qr_or_wait-connected :
      (id : ℕ) (o : Option String) (s : Service P) → (qr_or_wait P id o s).connected ≡ s.connected
  qr_or_wait-connected id none s = refl
  qr_or_wait-connected id (some qr) s = refl

  go_on-IsSound :
      (ids : List ℕ) (s : Service P) → s.connected ≡ false → IsSound s → IsSound (go_on P ids s)
  go_on-IsSound [] s c d = d
  go_on-IsSound (id ∷ ids) s c d =
      go_on-IsSound ids (qr_or_wait P id s.latest_qr s) (qr_or_wait-connected id s.latest_qr s ∙ c)
        (qr_or_wait-IsSound id s.latest_qr s c d)

  ensure_socket-connected : (s : Service P) → (ensure_socket P s).connected ≡ s.connected
  unfolding ensure_socket
  ensure_socket-connected s = elim (Bool-cases (s.sock || s.start_promise)) [
    | inl t ↦ simp t refl
    | inr f ↦ simp f refl
  ]

  get_qr_base64-IsSound : (id : ℕ) (s : Service P) → IsSound s → IsSound (get_qr_base64 P id s)
  unfolding get_qr_base64
  get_qr_base64-IsSound id s d =
      let t = ensure_socket P s in
      let e = ensure_socket-IsSound s d in
      elim (Bool-cases s.connected) [
        | inl c ↦ simp c (record {
          attached = λ h. d.attached c;
          starting = d.starting;
          served = λ h. d.served c;
          awaited = d.awaited;
        })
        | inr c ↦ elim (Bool-cases t.start_promise) [
          | inl b ↦
              simp (c, b)
                (record {
                  attached = e.attached;
                  starting = λ h. e.starting b;
                  served = e.served;
                  awaited = λ h. absurd (cc h);
                })
          | inr b ↦
              simp (c, b) (qr_or_wait-IsSound id t.latest_qr t (ensure_socket-connected s ∙ c) e)
        ]
      ]

  -- A start that was begun is that of a service that is not connected.
  starting-connected : (s : Service P) → IsSound s → s.start_promise ≡ true → s.connected ≡ false
  starting-connected s d b = elim (Bool-cases s.connected) [
    | inl c ↦ absurd (cc (d.attached c, d.starting b))
    | inr c ↦ c
  ]

  socket_started-IsSound :
      (s : Service P) → s.start_promise ≡ true → IsSound s → IsSound (socket_started P s)
  unfolding socket_started
  socket_started-IsSound s b d =
      let c = starting-connected s d b in
      go_on-IsSound s.booting (record s { sock = true; start_promise = false; booting = [] }) c
        (record {
          attached = λ e. refl;
          starting = λ e. absurd (cc);
          served = d.served;
          awaited = λ e. refl;
        })

  start_failed-IsSound : (s : Service P) → IsSound s → IsSound (start_failed P s)
  unfolding start_failed
  start_failed-IsSound s d = record {
    attached = d.attached;
    starting = λ e. absurd (cc);
    served = d.served;
    awaited = λ e. refl;
  }

  teardown-IsSound : (b : Bool) (s : Service P) → IsSound s → IsSound (teardown P b s)
  unfolding teardown answer_waiters
  teardown-IsSound b s d = record {
    attached = λ e. absurd (cc);
    starting = λ e. refl;
    served = λ e. refl;
    awaited = d.awaited;
  }

  on_qr-IsSound : (o : Option String) (s : Service P) → IsSound s → IsSound (on_qr P o s)
  on_qr-IsSound none s d = d
  on_qr-IsSound (some qr) s d = elim (Bool-cases (is_empty qr)) [
    | inl t ↦ simp t d
    | inr f ↦ simp f (
        answer_waiters-IsSound (resolved qr) (record s { latest_qr = some qr })
          (record {
            attached = d.attached;
            starting = d.starting;
            served = d.served;
            awaited = d.awaited;
          }))
  ]

  on_qr-sock : (o : Option String) (s : Service P) → (on_qr P o s).sock ≡ s.sock
  unfolding answer_waiters
  on_qr-sock none s = refl
  on_qr-sock (some qr) s = elim (Bool-cases (is_empty qr)) [
    | inl t ↦ simp t refl
    | inr f ↦ simp f refl
  ]

  on_close-IsSound : (c : Option ℕ) (s : Service P) → IsSound s → IsSound (on_close P c s)
  on_close-IsSound c s d =
      let a = rejected (service_unavailable (text (closed_text c))) in
      let t : Service P = record s { connected = false; latest_qr = none } in
      let e : IsSound (answer_waiters P a t) =
        (answer_waiters-IsSound a t (record {
          attached = λ h. absurd (cc);
          starting = d.starting;
          served = λ h. absurd (cc);
          awaited = d.awaited;
        })) in
      elim (Bool-cases (is_logged_out c)) [
        | inl l ↦ simp l (teardown-IsSound true (answer_waiters P a t) e)
        | inr l ↦
            let f = teardown-IsSound false (answer_waiters P a t) e in
            simp l (record {
              attached = f.attached;
              starting = f.starting;
              served = f.served;
              awaited = f.awaited;
            })
      ]

  update-IsSound :
      (u : Update) (s : Service P)
      → s.sock ≡ true
      → IsSound s
      → IsSound (handle_connection_update P u s)
  unfolding handle_connection_update
  update-IsSound u s k d =
      on_phase u.connection (on_qr P u.qr s) (on_qr-sock u.qr s ∙ k) (on_qr-IsSound u.qr s d)
    where
      on_phase :
          (c : Phase) (s : Service P)
          → s.sock ≡ true
          → IsSound s
          → IsSound (on_connection P c u.status_code s)
      on_phase opened s k d =
          unfold answer_waiters in
          record {
            attached = λ e. k;
            starting = d.starting;
            served = λ e. refl;
            awaited = d.awaited;
          }
      on_phase closed s k d = on_close-IsSound u.status_code s d
      on_phase other_phase s k d = d

  restart_goes_on-IsSound : (s : Service P) → IsSound s → IsSound (restart_goes_on P s)
  unfolding restart_goes_on
  restart_goes_on-IsSound s d = elim (Bool-cases s.restarting) [
    | inl t ↦ simp t (
        ensure_socket-IsSound (record s { restarting = false })
          (record {
            attached = d.attached;
            starting = d.starting;
            served = d.served;
            awaited = d.awaited;
          }))
    | inr f ↦ simp f d
  ]

  time_out-IsSound : (id : ℕ) (s : Service P) → IsSound s → IsSound (time_out P id s)
  unfolding time_out
  time_out-IsSound id s d = elim (Bool-cases (is_waiting id s.waiters)) [
    | inl w ↦ simp w (record {
      attached = d.attached;
      starting = d.starting;
      served = λ e. ap (without id) (d.served e);
      awaited = d.awaited;
    })
    | inr w ↦ simp w d
  ]

  step-IsSound : (e : Event) (s : Service P) → IsSound s → IsSound (step P e s)
  unfolding step
  step-IsSound boots s d = ensure_socket-IsSound s d
  step-IsSound starts s d = elim (Bool-cases s.start_promise) [
    | inl b ↦ simp b (socket_started-IsSound s b d)
    | inr b ↦ simp b d
  ]
  step-IsSound fails s d = elim (Bool-cases s.start_promise) [
    | inl b ↦ simp b (start_failed-IsSound s d)
    | inr b ↦ simp b d
  ]
  step-IsSound restarts s d = restart_goes_on-IsSound s d
  step-IsSound (updates u) s d = elim (Bool-cases s.sock) [
    | inl k ↦ simp k (update-IsSound u s k d)
    | inr k ↦ simp k d
  ]
  step-IsSound (asks id) s d = get_qr_base64-IsSound id s d
  step-IsSound (times_out id) s d = time_out-IsSound id s d
  step-IsSound (tears_down b) s d = teardown-IsSound b s d

  run_from-IsSound : (es : List Event) (s : Service P) → IsSound s → IsSound (run P es s)
  unfolding run
  run_from-IsSound [] s d = d
  run_from-IsSound (e ∷ es) s d = run_from-IsSound es (step P e s) (step-IsSound e s d)

  -- In whatever order callers, timers, events of the socket and shutdowns come, the service stays
  -- sound.
  pub connection-IsSound : (auth : Store P) (es : List Event) → IsSound (run P es (initial P auth))
  connection-IsSound auth es = run_from-IsSound es (initial P auth) (initial-IsSound auth)
