-- ===== src/Whatsapp/Connection/Answers.antt =====
-- Every caller of `/qr` is answered once: src/modules/whatsapp/services/whatsapp.service.ts.
use nestjs_starter.Prelude.{
  ℕ, ◌+◌, ◌≤◌, String, Bool, true, false, ◌||◌, ◌≡◌, refl, ◌∙◌, Option, none, some, List, [], ◌∷◌,
  ◌++◌, map, ◌==◌, ==→eq, count_where, arith, Bool-cases, inl, inr, if◌then◌else◌,
}
use nestjs_starter.Text.{is_empty}
use nestjs_starter.Storage.Provider.{Provider}
use nestjs_starter.Whatsapp.Auth.{Store}
use nestjs_starter.Whatsapp.Connection.{
  Answer, resolved, rejected, not_started, Phase, opened, closed, other_phase, Update, Service,
  initial, answer_waiters, ensure_socket, qr_or_wait, get_qr_base64, go_on, socket_started,
  start_failed, teardown, on_qr, on_connection, handle_connection_update, restart_goes_on, without,
  is_waiting, time_out, is_logged_out, closed_text,
}
use nestjs_starter.Exec.{service_unavailable, text}

-- What can happen. Only a socket that is there has listeners, and only a start that was begun ends.
pub data Event : Type 0 where
  boots starts fails restarts : Event
  updates : Update → Event
  asks times_out : ℕ → Event
  tears_down : Bool → Event

module _ (P : Provider String) where
  unfoldable pub step : Event → Service P → Service P
  step boots s = ensure_socket P s
  step starts s = let t = socket_started P s in if s.start_promise then t else s
  step fails s = let t = start_failed P s in if s.start_promise then t else s
  step restarts s = restart_goes_on P s
  step (updates u) s = let t = handle_connection_update P u s in if s.sock then t else s
  step (asks id) s = get_qr_base64 P id s
  step (times_out id) s = time_out P id s
  step (tears_down b) s = teardown P b s

  unfoldable pub run : List Event → Service P → Service P
  run [] s = s
  run (e ∷ es) s = run es (step e s)

abbrev pub count : ℕ → List ℕ → ℕ
count id = count_where (λ x. x == id)

abbrev pub count_answers : ℕ → List (ℕ × Answer) → ℕ
count_answers id = count_where (λ p. p.0 == id)

-- how often a caller is among those that wait and those that were answered
abbrev pub asked : {P : Provider String} → ℕ → Service P → ℕ
asked id s = count id s.booting + count id s.waiters + count_answers id s.answers

-- the calls of one event, and of many
abbrev pub calls_of : ℕ → Event → ℕ
calls_of id (asks j) = if j == id then 1 else 0
calls_of id e = 0

abbrev pub calls : ℕ → List Event → ℕ
calls id [] = 0
calls id (e ∷ es) = calls_of id e + calls id es

count-append : (id : ℕ) (xs ys : List ℕ) → count id (xs ++ ys) ≡ count id xs + count id ys
count-append id [] ys = omega arith
count-append id (x ∷ xs) ys = omega (arith, count-append id xs ys)

count-answered :
    (id : ℕ) (a : Answer) (ws : List ℕ) (l : List (ℕ × Answer))
    → count_answers id (map (λ w. (w, a)) ws ++ l) ≡ count id ws + count_answers id l
count-answered id a [] l = omega arith
count-answered id a (w ∷ ws) l = omega (arith, count-answered id a ws l)

count-without :
    (id j : ℕ) (ws : List ℕ) → count j (without id ws) ≡ (if id == j then 0 else count j ws)
count-without id j [] = ground arith
count-without id j (w ∷ ws) = ground (arith, count-without id j ws)

count_waiting : (id : ℕ) (ws : List ℕ) → is_waiting id ws ≡ true → 1 ≤ count id ws
count_waiting id [] h = absurd (cc)
count_waiting id (w ∷ ws) h = ground (arith, count_waiting id ws)

module _ {P : Provider String} (id : ℕ) where
  asked-answer_waiters : (a : Answer) (s : Service P) → asked id (answer_waiters P a s) ≡ asked id s
  unfolding answer_waiters
  asked-answer_waiters a s = omega (arith, count-answered id a s.waiters s.answers)

  asked-ensure_socket : (s : Service P) → asked id (ensure_socket P s) ≡ asked id s
  unfolding ensure_socket
  asked-ensure_socket s = elim (Bool-cases (s.sock || s.start_promise)) [
    | inl t ↦ simp t refl
    | inr f ↦ simp f refl
  ]

  asked-qr_or_wait :
      (j : ℕ) (o : Option String) (s : Service P)
      → asked id (qr_or_wait P j o s) ≡ (if j == id then 1 else 0) + asked id s
  asked-qr_or_wait j none s = omega (arith, count-append id s.waiters (j ∷ []))
  asked-qr_or_wait j (some qr) s = omega arith

  asked-get_qr_base64 :
      (j : ℕ) (s : Service P)
      → asked id (get_qr_base64 P j s) ≡ (if j == id then 1 else 0) + asked id s
  unfolding get_qr_base64
  asked-get_qr_base64 j s =
      let same = asked-ensure_socket s in
      let t = ensure_socket P s in
      elim (Bool-cases s.connected) [
        | inl c ↦ simp c (omega arith)
        | inr c ↦ elim (Bool-cases t.start_promise) [
          | inl b ↦ simp (c, b) (omega (arith, same, count-append id t.booting (j ∷ [])))
          | inr b ↦ simp (c, b) (omega (arith, same, asked-qr_or_wait j t.latest_qr t))
        ]
      ]

  asked-go_on :
      (ids : List ℕ) (s : Service P) → asked id (go_on P ids s) ≡ count id ids + asked id s
  asked-go_on [] s = omega arith
  asked-go_on (j ∷ ids) s =
      omega
        (arith, asked-go_on ids (qr_or_wait P j s.latest_qr s), asked-qr_or_wait j s.latest_qr s)

  asked-socket_started : (s : Service P) → asked id (socket_started P s) ≡ asked id s
  unfolding socket_started
  asked-socket_started s =
      omega (
        arith,
        asked-go_on s.booting (record s { sock = true; start_promise = false; booting = [] }),
      )

  asked-start_failed : (s : Service P) → asked id (start_failed P s) ≡ asked id s
  unfolding start_failed
  asked-start_failed s = omega (arith, count-answered id not_started s.booting s.answers)

  asked-teardown : (b : Bool) (s : Service P) → asked id (teardown P b s) ≡ asked id s
  unfolding teardown
  asked-teardown b s =
      asked-answer_waiters (rejected (service_unavailable (text "WhatsApp socket was torn down.")))
        (record s { sock = false; connected = false; latest_qr = none })

  asked-update :
      (u : Update) (s : Service P) → asked id (handle_connection_update P u s) ≡ asked id s
  unfolding handle_connection_update
  asked-update u s = on_phase u.connection (on_qr P u.qr s) ∙ first u.qr s
    where
      first : (o : Option String) (s : Service P) → asked id (on_qr P o s) ≡ asked id s
      first none s = refl
      first (some qr) s = elim (Bool-cases (is_empty qr)) [
        | inl t ↦ simp t refl
        | inr f ↦ simp f (asked-answer_waiters (resolved qr) (record s { latest_qr = some qr }))
      ]

      on_phase :
          (c : Phase) (s : Service P) → asked id (on_connection P c u.status_code s) ≡ asked id s
      on_phase opened s = asked-answer_waiters _ (record s { connected = true; latest_qr = none })
      on_phase other_phase s = refl
      on_phase closed s =
          let t = record s { connected = false; latest_qr = none } in
          let a = rejected (service_unavailable (text (closed_text u.status_code))) in
          elim (Bool-cases (is_logged_out u.status_code)) [
            | inl l ↦ simp l (asked-teardown true (answer_waiters P a t) ∙ asked-answer_waiters a t)
            | inr l ↦
                simp l (asked-teardown false (answer_waiters P a t) ∙ asked-answer_waiters a t)
          ]

  asked-restart : (s : Service P) → asked id (restart_goes_on P s) ≡ asked id s
  unfolding restart_goes_on
  asked-restart s = elim (Bool-cases s.restarting) [
    | inl t ↦ simp t (asked-ensure_socket (record s { restarting = false }))
    | inr f ↦ simp f refl
  ]

  -- A timer answers a caller that waits once.
  asked-time_out : (j : ℕ) (s : Service P) → asked j s ≤ 1 → asked id (time_out P j s) ≡ asked id s
  unfolding time_out
  asked-time_out j s once = elim (Bool-cases (is_waiting j s.waiters)) [
    | inl w ↦ simp w (
        ground (arith, once, count-without j id s.waiters, count_waiting j s.waiters w, ==→eq j id))
    | inr w ↦ simp w refl
  ]

  guarded :
      (b : Bool) (t s : Service P)
      → asked id t ≡ asked id s
      → asked id (if b then t else s) ≡ 0 + asked id s
  guarded true t s h = omega (arith, h)
  guarded false t s h = omega arith

  asked-step :
      (e : Event) (s : Service P)
      → ((j : ℕ) → asked j s ≤ 1)
      → asked id (step P e s) ≡ calls_of id e + asked id s
  unfolding step
  asked-step boots s h = omega (arith, asked-ensure_socket s)
  asked-step starts s h = guarded s.start_promise (socket_started P s) s (asked-socket_started s)
  asked-step fails s h = guarded s.start_promise (start_failed P s) s (asked-start_failed s)
  asked-step restarts s h = omega (arith, asked-restart s)
  asked-step (updates u) s h = guarded s.sock (handle_connection_update P u s) s (asked-update u s)
  asked-step (asks j) s h = asked-get_qr_base64 j s
  asked-step (times_out j) s h = omega (arith, asked-time_out j s (h j))
  asked-step (tears_down b) s h = omega (arith, asked-teardown b s)

module _ {P : Provider String} where
  asked-run :
      (es : List Event) (s : Service P)
      → ((j : ℕ) → calls j es + asked j s ≤ 1)
      → (id : ℕ) → asked id (run P es s) ≡ calls id es + asked id s
  unfolding run
  asked-run [] s h id = omega arith
  asked-run (e ∷ es) s h id =
      let each : (j : ℕ) → asked j (step P e s) ≡ calls_of j e + asked j s =
        (λ j. asked-step j e s (λ k. omega (arith, h k))) in
      omega (arith, asked-run es (step P e s) (λ j. omega (arith, h j, each j)) id, each id)

  -- Whatever happens, if each call of `getQrBase64` has a number of its own, a call that was made
  -- either still waits or has been answered, and not both, nor twice; nobody else is answered.
  pub run-asked :
      (auth : Store P) (es : List Event)
      → ((j : ℕ) → calls j es ≤ 1)
      → (id : ℕ)
      → let s = run P es (initial P auth) in
        count id s.booting + count id s.waiters + count_answers id s.answers ≡ calls id es
  run-asked auth es h id =
      let none_yet : (j : ℕ) → asked j (initial P auth) ≡ 0 =
        (λ j. unfold initial in omega arith) in
      omega
        (arith, asked-run es (initial P auth) (λ j. omega (arith, h j, none_yet j)) id, none_yet id)
