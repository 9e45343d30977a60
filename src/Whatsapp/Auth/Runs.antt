-- ===== src/Whatsapp/Auth/Runs.antt =====
-- Runs of the credentials' store, a shutdown, and a deletion beside an upload:
-- src/modules/whatsapp/services/whatsapp-auth.service.ts.
use nestjs_starter.Prelude.{
  ◌<◌, String, false, true, ◌≡◌, refl, ◌∙◌, Option, none, some, inl, inr, Bool-cases, Option-cases,
}
use nestjs_starter.Storage.{done, StoredFile}
use nestjs_starter.Storage.Provider.{Provider, IsObjectStore}
use nestjs_starter.Whatsapp.Auth.{
  session_key, session_input, session_target, Store, initial, load, read_lands, save, begin_upload,
  flush_or_wait, flush, upload_lands, clear, delete_lands, exists,
}
use nestjs_starter.Whatsapp.Auth.Durability.{
  durable, to_write, on_its_way, written, IsDurable, initial-IsDurable, save-IsDurable,
  load-IsDurable, read_lands-IsDurable, flush-IsDurable, upload_lands-IsDurable, session-IsFiled,
}

module _ (P : Provider String) (store : IsObjectStore P) where
  -- The steps of a process that keeps its pairing, whose uploads are good, and that saves nothing
  -- while a read of the store is on its way.
  pub data Step : Store P → Store P → Type 0 where
    loads : {s : Store P} → Step s (load P s).1
    read_ends : {s : Store P} → 0 < s.reading → Step s (read_lands P s).1
    saves : {s : Store P} (text : String) → s.reading ≡ 0 → Step s (save P text s)
    flushes : {s : Store P} → Step s (flush P s)
    lands :
        {s : Store P} (payload : String) (file : StoredFile) (storage : P.State)
        → s.flush_in_flight ≡ some payload
        → P.save (session_input payload) session_target s.storage ≡ (done file, storage)
        → Step s (upload_lands P s)

  pub data Reach (s : Store P) : Store P → Type 0 where
    here : Reach s s
    next : {t u : Store P} → Reach s t → Step t u → Reach s u

  Step-IsDurable : {s t : Store P} → Step s t → IsDurable P store s → IsDurable P store t
  Step-IsDurable {s} loads d = load-IsDurable P store s d
  Step-IsDurable {s} (read_ends some_read) d = read_lands-IsDurable P store s some_read d
  Step-IsDurable {s} (saves text no_read) d = save-IsDurable P store text s no_read
  Step-IsDurable {s} flushes d = flush-IsDurable P store s d
  Step-IsDurable {s} (lands payload file storage f e) d =
      upload_lands-IsDurable P store s payload file storage f e d

  -- Loads, the ends of their reads, saves outside of a read, flushes and the ends of good uploads, in
  -- any order, lose no update: what is cached is written, or on its way, or waits; what waits has a
  -- timer or a call that will write it; before the first load or save there is nothing, and nothing
  -- is written while a read is on its way.
  pub Reach-IsDurable : (t : P.State) {s : Store P} → Reach (initial P t) s → IsDurable P store s
  Reach-IsDurable t here = initial-IsDurable P store t
  Reach-IsDurable t (next r st) = Step-IsDurable st (Reach-IsDurable t r)

  module _ (file : String → P.State → StoredFile) (after : String → P.State → P.State)
      (good : (payload : String) (t : P.State)
        → P.save (session_input payload) session_target t
          ≡ (done (file payload t), after payload t)) where
    lands_or_stays : (s : Store P) → IsDurable P store s → IsDurable P store (upload_lands P s)
    lands_or_stays s d = elim (Option-cases s.flush_in_flight) [
      | inl n ↦ unfold upload_lands in simp n d
      | inr (payload, f) ↦
          upload_lands-IsDurable P store s payload (file payload s.storage)
            (after payload s.storage) f (good payload s.storage) d
    ]

    -- `flush`, and the uploads that it awaits where no other call waits: the one in flight, and its
    -- own.
    abbrev pub shut_down : Store P → Store P
    shut_down s = upload_lands P (upload_lands P (flush P s))

    settled :
        (s : Store P) (p f : Option String)
        → s.pending ≡ p
        → s.flush_in_flight ≡ f
        → ((shut_down s).pending ≡ none) × ((shut_down s).flush_in_flight ≡ none)
    unfolding flush upload_lands
    settled s none none e g = simp (g, e) (refl, refl)
    settled s (some p) none e g = elim (Bool-cases s.flush_waits) [
      | inl w ↦ simp (g, e, good, w) (refl, refl)
      | inr w ↦ simp (g, e, good, w) (refl, refl)
    ]
    settled s none (some f) e g = simp (g, e, good) (refl, refl)
    settled s (some p) (some f) e g = simp (g, e, good) (refl, refl)

    begin_upload-cached : (s : Store P) (p : Option String) → (begin_upload P p s).cached ≡ s.cached
    begin_upload-cached s none = refl
    begin_upload-cached s (some p) = refl

    flush_or_wait-cached :
        (s : Store P) (f : Option String) → (flush_or_wait P f s).cached ≡ s.cached
    flush_or_wait-cached s none = begin_upload-cached s s.pending
    flush_or_wait-cached s (some p) = refl

    flush-cached : (s : Store P) → (flush P s).cached ≡ s.cached
    unfolding flush
    flush-cached s = flush_or_wait-cached (record s { flush_timer = false }) s.flush_in_flight

    land-cached : (s : Store P) → (upload_lands P s).cached ≡ s.cached
    unfolding upload_lands
    land-cached s = elim (Option-cases s.flush_in_flight) [
      | inl n ↦ simp n refl
      | inr (p, f) ↦ elim (Bool-cases s.flush_waits) [
        | inl w ↦ simp (f, good, w) (begin_upload-cached _ s.pending)
        | inr w ↦ simp (f, good, w) refl
      ]
    ]

    -- If no other call of `flush` waits already, then after a `flush` and the uploads that it waits
    -- for, which are good, the store holds what is cached, and nothing waits.
    pub shut_down-durable :
        (s : Store P) (text : String)
        → IsDurable P store s
        → s.cached ≡ some text
        → s.flush_waits ≡ false
        → (durable P store (shut_down s) ≡ some text)
          × ((shut_down s).pending ≡ none)
          × ((shut_down s).flush_in_flight ≡ none)
    shut_down-durable s text d c alone =
        let (no_pending, no_flight) = settled s s.pending s.flush_in_flight refl refl in
        let end_ =
          lands_or_stays (upload_lands P (flush P s))
            (lands_or_stays (flush P s) (flush-IsDurable P store s d)) in
        (
          elim (end_.kept text (
              land-cached (upload_lands P (flush P s))
              ∙ land-cached (flush P s)
              ∙ flush-cached s
              ∙ c)) [
                | to_write w ↦ absurd (cc (w, no_pending))
                | on_its_way w f ↦ absurd (cc (f, no_flight))
                | written w f v ↦ v
              ],
          no_pending,
          no_flight,
        )

    -- Where another call of `flush` waits, the second to wait comes to its end with the upload in
    -- flight, as nothing is pending then: the store does not hold yet what is cached.
    pub second_waiter_early :
        (s : Store P) (payload text : String)
        → s.flush_in_flight ≡ some payload
        → s.pending ≡ some text
        → s.flush_waits ≡ true
        → let after_first = upload_lands P (flush P s) in
          (after_first.flush_waits ≡ false)
          × (after_first.flush_in_flight ≡ some text)
          × (durable P store after_first ≡ some payload)
    unfolding flush upload_lands
    second_waiter_early s payload text f p w =
        let held =
          store.view-save_done (session_input payload) session_target (file payload s.storage)
            s.storage (after payload s.storage) session-IsFiled (good payload s.storage) in
        simp (f, p, w, good) (refl, refl, held)

    -- A logout while an upload is in flight: `clear` does not wait for it, so that it may land after
    -- the deletion. The old credentials are then in the store, where the next process finds them,
    -- while this process says that there are none.
    pub clear-upload_lands :
        (s : Store P) (payload : String)
        → s.flush_in_flight ≡ some payload
        → let end_ = upload_lands P (delete_lands P (clear P s)).1 in
          (durable P store end_ ≡ some payload) × (exists P end_ ≡ done false)
    unfolding upload_lands delete_lands clear exists
    clear-upload_lands s payload f =
        let storage = (P.delete session_key s.storage).1 in
        let held =
          store.view-save_done (session_input payload) session_target (file payload storage) storage
            (after payload storage) session-IsFiled (good payload storage) in
        elim (Bool-cases s.flush_waits) [
          | inl w ↦ simp (f, good, w) (held, refl)
          | inr w ↦ simp (f, good, w) (held, refl)
        ]
