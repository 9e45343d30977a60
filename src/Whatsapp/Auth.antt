-- ===== src/Whatsapp/Auth.antt =====
-- src/modules/whatsapp/services/whatsapp-auth.service.ts, cut at its awaits: a read, an upload and
-- the deletion of `clear` begin in one step and land in another. A buffer is its text.
pub mod Durability
pub mod Runs
pub mod Tests
use Prim.Native.String.{len}
use nestjs_starter.Prelude.{
  ℕ, ◌+◌, ◌-◌, String, Bool, true, false, Option, none, some, is_some, if◌then◌else◌,
}
use nestjs_starter.Storage.{
  private, Outcome, done, fail, ◌>>=◌, StorageFault, file_not_found_error, UploadInput, SaveTarget,
}
use nestjs_starter.Storage.Provider.{Provider}

-- `WHATSAPP_AUTH_STORAGE_KEY`
abbrev pub session_key : String
session_key = "private/whatsapp/session.json"

-- The arguments of the call of `storage.save`.
abbrev pub session_input : String → UploadInput String
session_input serialized = record {
  buffer = serialized;
  original_name = "session.json";
  mime_type = "application/json";
  size = len serialized;
}

abbrev pub session_target : SaveTarget
session_target = record {
  key = session_key;
  visibility = private;
  content_type = some "application/json";
}

module _ (P : Provider String) where
  pub record Store : Type 0 where
    pub cached : Option String
    pub hydrated : Bool
    -- the calls of `load` whose read is on its way
    pub reading : ℕ
    pub pending : Option String
    pub flush_timer : Bool
    -- what the upload in flight carries
    pub flush_in_flight : Option String
    -- A call of `flush` waits for the upload in flight. Where several wait, the first of them finds
    -- what is pending and waits for the next upload too, and the others come to their end.
    pub flush_waits : Bool
    -- the deletion of a `clear` is on its way
    pub deleting : Bool
    pub storage : P.State

  unfoldable pub initial : P.State → Store
  initial storage = record {
    cached = none;
    hydrated = false;
    reading = 0;
    pending = none;
    flush_timer = false;
    flush_in_flight = none;
    flush_waits = false;
    deleting = false;
    storage = storage;
  }

  -- The `try` and the `catch` of `load`.
  abbrev pub loaded : Store → Outcome String → Outcome (Option String) × Store
  loaded s (done text) = (done (some text), record s { cached = some text; hydrated = true })
  loaded s (fail (file_not_found_error key)) =
      (done none, record s { cached = none; hydrated = true })
  loaded s (fail e) = (fail e, s)

  abbrev pub answer_or_read : Bool → Store → Option (Option String) × Store
  answer_or_read true s = (some s.cached, s)
  answer_or_read false s = (none, record s { reading = s.reading + 1 })

  -- `load`, up to where it waits: what it answers, if it does not wait.
  unfoldable pub load : Store → Option (Option String) × Store
  load s = answer_or_read s.hydrated s

  -- A read comes to its end, with what the store holds then: the call of `load` goes on.
  unfoldable pub read_lands : Store → Outcome (Option String) × Store
  read_lands s = loaded (record s { reading = s.reading - 1 }) (P.read session_key s.storage)

  unfoldable pub save : String → Store → Store
  save serialized s = record s {
    cached = some serialized;
    hydrated = true;
    pending = some serialized;
    flush_timer = true;
  }

  -- `flush` from its reading of `pending` on.
  abbrev pub begin_upload : Option String → Store → Store
  begin_upload none s = s
  begin_upload (some payload) s = record s { pending = none; flush_in_flight = some payload }

  abbrev pub flush_or_wait : Option String → Store → Store
  flush_or_wait none s = begin_upload s.pending s
  flush_or_wait (some payload) s = record s { flush_waits = true }

  -- `flush`, up to where it waits; the timer calls it, and `onModuleDestroy`, and the connection.
  unfoldable pub flush : Store → Store
  flush s = flush_or_wait s.flush_in_flight (record s { flush_timer = false })

  -- The waiting calls go on where the upload was good, and fail with it otherwise.
  abbrev pub resume : Outcome Bool → Store → Store
  resume (done b) s =
      if s.flush_waits then begin_upload s.pending (record s { flush_waits = false }) else s
  resume (fail e) s = record s { flush_waits = false }

  abbrev pub land : Option String → Store → Store
  land none s = s
  land (some payload) s =
      let (r, storage) = P.save (session_input payload) session_target s.storage in
      resume (r >>= λ _. done true) (record s { flush_in_flight = none; storage = storage })

  -- The upload in flight comes to its end.
  unfoldable pub upload_lands : Store → Store
  upload_lands s = land s.flush_in_flight s

  -- `clear`, up to the deletion.
  unfoldable pub clear : Store → Store
  clear s = record s {
    flush_timer = false;
    pending = none;
    cached = none;
    hydrated = true;
    deleting = true;
  }

  abbrev pub forgive_missing : Outcome (Unit {0}) → Outcome (Unit {0})
  forgive_missing (done u) = done u
  forgive_missing (fail (file_not_found_error key)) = done tt
  forgive_missing (fail e) = fail e

  -- The deletion comes to its end.
  unfoldable pub delete_lands : Store → Outcome (Unit {0}) × Store
  delete_lands s =
      let (r, storage) = P.delete session_key s.storage in
      (forgive_missing r, record s { deleting = false; storage = storage })

  unfoldable pub exists : Store → Outcome Bool
  exists s =
      let remote = P.exists session_key s.storage in
      if s.hydrated then done (is_some s.cached) else remote
