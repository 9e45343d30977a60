-- ===== src/Whatsapp/Connection.antt =====
-- src/modules/whatsapp/services/whatsapp.service.ts: the life of the socket, cut at its awaits. The
-- library Baileys is outside: its events are steps, and a socket is there or not.

pub mod Answers
pub mod Soundness
pub mod Tests
use Prim.Native.Char.{code}
use Prim.Native.String.{[] as nil, ◌∷◌ as char_then, ◌++◌ as append}
use nestjs_starter.Prelude.{
  ℕ, String, Bool, true, false, not, ◌&&◌, ◌||◌, Option, none, some, List, [], ◌∷◌, ◌++◌, map, ◌==◌,
  if◌then◌else◌,
}
use nestjs_starter.Text.{is_empty}
use nestjs_starter.Cache.Keys.{decimal}
use nestjs_starter.Exec.{HttpException, conflict, service_unavailable, text}
use nestjs_starter.Storage.Names.{is_space}
use nestjs_starter.Storage.Provider.{Provider}
use nestjs_starter.Whatsapp.Auth.{Store, clear, flush}

-- What a call of `getQrBase64` comes to: a QR code, an exception of the service, or the failure of the
-- start of the socket.
pub data Answer : Type 0 where
  resolved : String → Answer
  rejected : HttpException → Answer
  not_started : Answer

-- `update.connection`
pub data Phase : Type 0 where
  opened closed other_phase : Phase

pub record Update : Type 0 where
  pub qr : Option String
  pub connection : Phase
  -- `lastDisconnect?.error?.output?.statusCode`
  pub status_code : Option ℕ

-- `DisconnectReason.loggedOut`
abbrev pub logged_out : ℕ
logged_out = 401

abbrev pub is_logged_out : Option ℕ → Bool
is_logged_out none = false
is_logged_out (some c) = c == logged_out

abbrev pub closed_text : Option ℕ → String
closed_text none = "Connection closed."
closed_text (some c) =
    if c == 0 then "Connection closed." else append "Connection closed (" (append (decimal c) ").")

-- `phone.replace(/^\+/, '').replace(/\s+/g, '') + PERSONAL_CHAT_JID_SUFFIX`
abbrev pub drop_spaces : String → String
drop_spaces nil = nil
drop_spaces (char_then c s) =
    let rest = drop_spaces s in if is_space (code c) then rest else char_then c rest

abbrev pub drop_plus : String → String
drop_plus nil = nil
drop_plus (char_then c s) = if code c == b'+' then s else char_then c s

unfoldable pub to_jid : String → String
to_jid phone = append (drop_spaces (drop_plus phone)) "@s.whatsapp.net"

-- `this.waiters.filter((w) => w !== waiter)`
abbrev pub without : ℕ → List ℕ → List ℕ
without id [] = []
without id (w ∷ ws) = let rest = without id ws in if w == id then rest else w ∷ rest

abbrev pub is_waiting : ℕ → List ℕ → Bool
is_waiting id [] = false
is_waiting id (w ∷ ws) = if w == id then true else is_waiting id ws

module _ (P : Provider String) where
  pub record Service : Type 0 where
    pub sock : Bool
    pub connected : Bool
    pub latest_qr : Option String
    pub start_promise : Bool
    -- the callers that await the start, by a number of their own
    pub booting : List ℕ
    pub waiters : List ℕ
    -- a `restartSocket` that awaits its teardown
    pub restarting : Bool
    -- what the callers were told, the last one first
    pub answers : List (ℕ × Answer)
    pub auth : Store P

  unfoldable pub initial : Store P → Service
  initial auth = record {
    sock = false;
    connected = false;
    latest_qr = none;
    start_promise = false;
    booting = [];
    waiters = [];
    restarting = false;
    answers = [];
    auth = auth;
  }

  abbrev pub answer : ℕ → Answer → Service → Service
  answer id a s = record s { answers = (id, a) ∷ s.answers }

  -- `resolveWaiters` and `rejectWaiters`: all that wait get the answer.
  unfoldable pub answer_waiters : Answer → Service → Service
  answer_waiters a s = record s {
    waiters = [];
    answers = map (λ id. (id, a)) s.waiters ++ s.answers;
  }

  unfoldable pub ensure_socket : Service → Service
  ensure_socket s = if s.sock || s.start_promise then s else record s { start_promise = true }

  -- `this.latestQr ?? (await this.waitForQr())`
  abbrev pub qr_or_wait : ℕ → Option String → Service → Service
  qr_or_wait id none s = record s { waiters = s.waiters ++ (id ∷ []) }
  qr_or_wait id (some qr) s = answer id (resolved qr) s

  -- `getQrBase64`, up to where it waits; behind the start it goes on with `qr_or_wait`.
  unfoldable pub get_qr_base64 : ℕ → Service → Service
  get_qr_base64 id s =
      let t = ensure_socket s in
      if s.connected
      then answer id (rejected (conflict (text "WhatsApp session is already connected."))) s
      else if t.start_promise
      then record t { booting = t.booting ++ (id ∷ []) }
      else qr_or_wait id t.latest_qr t

  abbrev pub go_on : List ℕ → Service → Service
  go_on [] s = s
  go_on (id ∷ ids) s = go_on ids (qr_or_wait id s.latest_qr s)

  -- `startSocket` comes to its end, and the promise settles.
  unfoldable pub socket_started : Service → Service
  socket_started s = go_on s.booting (record s { sock = true; start_promise = false; booting = [] })

  unfoldable pub start_failed : Service → Service
  start_failed s = record s {
    start_promise = false;
    booting = [];
    answers = map (λ id. (id, not_started)) s.booting ++ s.answers;
  }

  -- `teardown`, up to its last await.
  unfoldable pub teardown : Bool → Service → Service
  teardown remove_auth s =
      let t =
        answer_waiters (rejected (service_unavailable (text "WhatsApp socket was torn down.")))
          (record s { sock = false; connected = false; latest_qr = none }) in
      record t { auth = if remove_auth then clear P t.auth else flush P t.auth }

  abbrev pub on_qr : Option String → Service → Service
  on_qr none s = s
  on_qr (some qr) s =
      if is_empty qr then s else answer_waiters (resolved qr) (record s { latest_qr = some qr })

  abbrev pub on_close : Option ℕ → Service → Service
  on_close status_code s =
      let t =
        answer_waiters (rejected (service_unavailable (text (closed_text status_code))))
          (record s { connected = false; latest_qr = none }) in
      if is_logged_out status_code
      then teardown true t
      else record (teardown false t) { restarting = true }

  abbrev pub on_connection : Phase → Option ℕ → Service → Service
  on_connection opened status_code s =
      answer_waiters
        (rejected (conflict (text "WhatsApp session is connected; no QR is needed now.")))
        (record s { connected = true; latest_qr = none })
  on_connection closed status_code s = on_close status_code s
  on_connection other_phase status_code s = s

  unfoldable pub handle_connection_update : Update → Service → Service
  handle_connection_update u s = on_connection u.connection u.status_code (on_qr u.qr s)

  -- `restartSocket` behind its teardown.
  unfoldable pub restart_goes_on : Service → Service
  restart_goes_on s =
      let t = ensure_socket (record s { restarting = false }) in if s.restarting then t else s

  -- The timer of a waiter, which is cleared when the waiter is answered.
  unfoldable pub time_out : ℕ → Service → Service
  time_out id s =
      let t =
        answer id (rejected (service_unavailable (text "QR code was not generated in time.")))
          (record s { waiters = without id s.waiters }) in
      if is_waiting id s.waiters then t else s

  unfoldable pub logout : Service → Service
  logout s = teardown true s

  -- whether `sendText` may send
  unfoldable pub send_text : String → Service → Option HttpException
  send_text phone s =
      if not s.connected || not s.sock
      then some (service_unavailable (text "WhatsApp is not connected."))
      else none
