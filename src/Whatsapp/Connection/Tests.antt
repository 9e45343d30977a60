-- ===== src/Whatsapp/Connection/Tests.antt =====
-- Runs of the connection.
use nestjs_starter.Prelude.{ℕ, ◌+◌, ◌≤◌, String, ◌≡◌, refl, none, some, List, [], ◌∷◌, arith}
use nestjs_starter.Storage.Provider.{Provider}
use nestjs_starter.Storage.Samples.{no_signature}
use nestjs_starter.Storage.Local.{local_provider}
use nestjs_starter.Storage.Local.Disk.{disk}
use nestjs_starter.Whatsapp.Auth as Auth
use nestjs_starter.Whatsapp.Auth.{Store}
use nestjs_starter.Whatsapp.Connection.{
  resolved, closed, other_phase, initial, answer_waiters, ensure_socket, get_qr_base64,
  socket_started, teardown, handle_connection_update, restart_goes_on, to_jid,
}
use nestjs_starter.Whatsapp.Connection.Answers.{
  Event, starts, restarts, updates, asks, step, run, count, count_answers, calls, run-asked,
}
use nestjs_starter.Whatsapp.Connection.Soundness.{IsSound, connection-IsSound}

abbrev P : Provider String
P = local_provider (disk String) ("srv" ∷ []) "" no_signature

abbrev auth : Store P
auth = Auth.initial P (λ p. none)

-- Two callers, of whom one waits for the start; a code for both, a drop, a restart, a third caller.
abbrev day : List Event
day =
    asks 1
    ∷ starts
    ∷ asks 2
    ∷ updates (record { qr = some "code"; connection = other_phase; status_code = none })
    ∷ updates (record { qr = none; connection = closed; status_code = some 428 })
    ∷ restarts
    ∷ asks 3
    ∷ []

told : (run P day (initial P auth)).answers ≡ (1, resolved "code") ∷ (2, resolved "code") ∷ []
unfolding run step initial Auth.initial Auth.flush answer_waiters ensure_socket get_qr_base64
    socket_started teardown handle_connection_update restart_goes_on
told = refl

jid : to_jid "+963 11 22" ≡ "9631122@s.whatsapp.net"
unfolding to_jid
jid = refl

once : (j : ℕ) → calls j day ≤ 1
once j = ground arith

run-asked_example :
    let s = run P day (initial P auth) in
    count 3 s.booting + count 3 s.waiters + count_answers 3 s.answers ≡ calls 3 day
run-asked_example = run-asked auth day once 3

connection-IsSound_example : IsSound (run P day (initial P auth))
connection-IsSound_example = connection-IsSound auth day
