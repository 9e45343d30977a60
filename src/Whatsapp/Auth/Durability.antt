-- ===== src/Whatsapp/Auth/Durability.antt =====
-- No update of the credentials is lost: src/modules/whatsapp/services/whatsapp-auth.service.ts.
use nestjs_starter.Prelude.{
  ℕ, ◌+◌, ◌-◌, ◌<◌, String, Bool, true, false, ◌||◌, ◌≡◌, refl, sym, ap, ◌∙◌, Option, none, some,
  is_some, inl, inr, Bool-cases, arith,
}
use nestjs_starter.Storage.{
  private, Outcome, done, fail, StoredFile, file_not_found_error, storage_error,
  file_validation_error, storage_provider_error, type_error,
}
use nestjs_starter.Storage.Provider.{Provider, IsFiled, IsObjectStore}
use nestjs_starter.Whatsapp.Auth.{
  session_key, session_input, session_target, Store, initial, loaded, answer_or_read, load,
  read_lands, save, begin_upload, flush_or_wait, flush, resume, upload_lands,
}

pub session-IsFiled : IsFiled private session_key
session-IsFiled = ((refl, refl, refl), refl)

either_waits : (a : Bool) → (a || true) ≡ true
either_waits true = refl
either_waits false = refl

module _ (P : Provider String) (store : IsObjectStore P) where
  abbrev pub durable : Store P → Option String
  durable s = store.view s.storage session_key

  -- Where the text that `load` would answer is kept.
  pub data IsKept (s : Store P) (text : String) : Type 0 where
    to_write : s.pending ≡ some text → IsKept s text
    on_its_way : s.pending ≡ none → s.flush_in_flight ≡ some text → IsKept s text
    written : s.pending ≡ none → s.flush_in_flight ≡ none → durable s ≡ some text → IsKept s text

  -- What is cached is written, or on its way, or waits; what waits has a timer or a call that will
  -- write it; before the first load or save there is nothing, and nothing is written while a read is
  -- on its way.
  pub record IsDurable (s : Store P) : Type 0 where
    pub kept : (text : String) → s.cached ≡ some text → IsKept s text
    pub awaited : is_some s.pending ≡ true → (s.flush_timer || s.flush_waits) ≡ true
    pub fresh :
        s.hydrated ≡ false → (s.cached ≡ none) × (s.pending ≡ none) × (s.flush_in_flight ≡ none)
    pub quiet : 0 < s.reading → (s.pending ≡ none) × (s.flush_in_flight ≡ none)

  same_place :
      (s t : Store P) (text : String)
      → t.pending ≡ s.pending
      → t.flush_in_flight ≡ s.flush_in_flight
      → durable t ≡ durable s
      → IsKept s text
      → IsKept t text
  same_place s t text p f v (to_write w) = to_write (p ∙ w)
  same_place s t text p f v (on_its_way w g) = on_its_way (p ∙ w) (f ∙ g)
  same_place s t text p f v (written w g h) = written (p ∙ w) (f ∙ g) (v ∙ h)

  pub initial-IsDurable : (t : P.State) → IsDurable (initial P t)
  unfolding initial
  initial-IsDurable t = record {
    kept = λ text e. absurd (cc);
    awaited = λ e. absurd (cc);
    fresh = λ e. (refl, refl, refl);
    quiet = λ h. (refl, refl);
  }

  pub save-IsDurable : (text : String) (s : Store P) → s.reading ≡ 0 → IsDurable (save P text s)
  unfolding save
  save-IsDurable text s no_read = record {
    kept = λ t e. to_write e;
    awaited = λ e. refl;
    fresh = λ e. absurd (cc);
    quiet = λ h. absurd (omega (arith, h, no_read));
  }

  -- A read lands, beside others maybe.
  loaded-IsDurable :
      (s : Store P) (r : Outcome String)
      → P.read session_key s.storage ≡ r
      → (s.pending ≡ none) × (s.flush_in_flight ≡ none)
      → IsDurable s
      → IsDurable (loaded P s r).1
  loaded-IsDurable s (done text) e (no_pending, no_flight) d = record {
    kept = λ t same.
        written no_pending no_flight
          (store.view-read private session_key text s.storage session-IsFiled e ∙ same);
    awaited = d.awaited;
    fresh = λ f. absurd (cc);
    quiet = d.quiet;
  }
  loaded-IsDurable s (fail (file_not_found_error key)) e none_left d = record {
    kept = λ t same. absurd (cc);
    awaited = d.awaited;
    fresh = λ f. absurd (cc);
    quiet = d.quiet;
  }
  loaded-IsDurable s (fail (storage_error m)) e none_left d = d
  loaded-IsDurable s (fail (file_validation_error c)) e none_left d = d
  loaded-IsDurable s (fail (storage_provider_error m)) e none_left d = d
  loaded-IsDurable s (fail type_error) e none_left d = d

  -- Only the number of reads changes.
  counted-IsDurable :
      (s : Store P) (n : ℕ)
      → (0 < n → (s.pending ≡ none) × (s.flush_in_flight ≡ none))
      → IsDurable s
      → IsDurable (record s { reading = n })
  counted-IsDurable s n quiet d = record {
    kept = λ text c. same_place s (record s { reading = n }) text refl refl refl (d.kept text c);
    awaited = d.awaited;
    fresh = d.fresh;
    quiet = quiet;
  }

  pub load-IsDurable : (s : Store P) → IsDurable s → IsDurable (load P s).1
  unfolding load
  load-IsDurable s d = go s.hydrated refl
    where
      go : (b : Bool) → s.hydrated ≡ b → IsDurable (answer_or_read P b s).1
      go true e = d
      go false e = counted-IsDurable s (s.reading + 1) (λ h. ((d.fresh e).1, (d.fresh e).2)) d

  pub read_lands-IsDurable :
      (s : Store P) → 0 < s.reading → IsDurable s → IsDurable (read_lands P s).1
  unfolding read_lands
  read_lands-IsDurable s some_read d =
      loaded-IsDurable (record s { reading = s.reading - 1 }) (P.read session_key s.storage) refl
        (d.quiet some_read) (counted-IsDurable s (s.reading - 1) (λ h. d.quiet some_read) d)

  -- An upload begins while none is in flight.
  begin_upload-IsDurable :
      (s : Store P) (p : Option String)
      → s.pending ≡ p
      → s.flush_in_flight ≡ none
      → ((text : String) → s.cached ≡ some text → IsKept s text)
      → (s.hydrated ≡ false → (s.cached ≡ none) × (s.pending ≡ none) × (s.flush_in_flight ≡ none))
      → (0 < s.reading → (s.pending ≡ none) × (s.flush_in_flight ≡ none))
      → IsDurable (begin_upload P p s)
  begin_upload-IsDurable s none e n kept fresh quiet = record {
    kept = kept;
    awaited = λ h. absurd (cc (e, h));
    fresh = fresh;
    quiet = quiet;
  }
  begin_upload-IsDurable s (some p) e n kept fresh quiet = record {
    kept = λ text c. elim (kept text c) [
      | to_write w ↦ on_its_way refl (sym e ∙ w)
      | on_its_way w f ↦ absurd (cc (e, w))
      | written w f v ↦ absurd (cc (e, w))
    ];
    awaited = λ h. absurd (cc);
    fresh = λ h. absurd (cc (e, (fresh h).1));
    quiet = λ h. absurd (cc (e, (quiet h).0));
  }

  flush_or_wait-IsDurable :
      (s : Store P) (f : Option String)
      → s.flush_in_flight ≡ f
      → ((text : String) → s.cached ≡ some text → IsKept s text)
      → (s.hydrated ≡ false → (s.cached ≡ none) × (s.pending ≡ none) × (s.flush_in_flight ≡ none))
      → (0 < s.reading → (s.pending ≡ none) × (s.flush_in_flight ≡ none))
      → IsDurable (flush_or_wait P f s)
  flush_or_wait-IsDurable s none e kept fresh quiet =
      begin_upload-IsDurable s s.pending refl e kept fresh quiet
  flush_or_wait-IsDurable s (some p) e kept fresh quiet = record {
    kept =
        λ text c. same_place s (record s { flush_waits = true }) text refl refl refl (kept text c);
    awaited = λ h. either_waits s.flush_timer;
    fresh = fresh;
    quiet = quiet;
  }

  pub flush-IsDurable : (s : Store P) → IsDurable s → IsDurable (flush P s)
  unfolding flush
  flush-IsDurable s d =
      let t : Store P = record s { flush_timer = false } in
      flush_or_wait-IsDurable t s.flush_in_flight refl
        (λ text c. same_place s t text refl refl refl (d.kept text c)) d.fresh d.quiet

  -- The upload in flight is written.
  landed-IsKept :
      (s : Store P) (payload : String) (file : StoredFile) (storage : P.State) (text : String)
      → s.flush_in_flight ≡ some payload
      → P.save (session_input payload) session_target s.storage ≡ (done file, storage)
      → IsKept s text
      → IsKept (record s { flush_in_flight = none; storage = storage }) text
  landed-IsKept s payload file storage text f e (to_write w) = to_write w
  landed-IsKept s payload file storage text f e (on_its_way w g) =
      let same : payload ≡ text = cc (f, g) in
      written w refl (
        store.view-save_done (session_input payload) session_target file s.storage storage
          session-IsFiled e
        ∙ ap some same)
  landed-IsKept s payload file storage text f e (written w g v) = absurd (cc (f, g))

  resumed-IsDurable :
      (t : Store P)
      → t.flush_in_flight ≡ none
      → ((text : String) → t.cached ≡ some text → IsKept t text)
      → (is_some t.pending ≡ true → (t.flush_timer || t.flush_waits) ≡ true)
      → (t.hydrated ≡ false → (t.cached ≡ none) × (t.pending ≡ none) × (t.flush_in_flight ≡ none))
      → (0 < t.reading → (t.pending ≡ none) × (t.flush_in_flight ≡ none))
      → IsDurable (resume P (done true) t)
  resumed-IsDurable t n kept awaited fresh quiet = elim (Bool-cases t.flush_waits) [
    | inl w ↦
        let u : Store P = record t { flush_waits = false } in
        simp w (
          begin_upload-IsDurable u t.pending refl n
            (λ text c. same_place t u text refl refl refl (kept text c)) fresh quiet)
    | inr f ↦ simp f (record { kept = kept; awaited = awaited; fresh = fresh; quiet = quiet })
  ]

  pub upload_lands-IsDurable :
      (s : Store P) (payload : String) (file : StoredFile) (storage : P.State)
      → s.flush_in_flight ≡ some payload
      → P.save (session_input payload) session_target s.storage ≡ (done file, storage)
      → IsDurable s
      → IsDurable (upload_lands P s)
  unfolding upload_lands
  upload_lands-IsDurable s payload file storage f e d =
      let t : Store P = record s { flush_in_flight = none; storage = storage } in
      simp (f, e)
        (resumed-IsDurable t refl
          (λ text c. landed-IsKept s payload file storage text f e (d.kept text c)) d.awaited
          (λ h. ((d.fresh h).0, (d.fresh h).1, refl)) (λ h. ((d.quiet h).0, refl)))
