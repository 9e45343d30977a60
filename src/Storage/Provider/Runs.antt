-- ===== src/Storage/Provider/Runs.antt =====
-- Sequences of writes against the abstract store: what a read answers afterwards. For the providers
-- of src/infrastructure/storage/providers.
use nestjs_starter.Prelude.{
  String, str_eq, eq_iff, Bool, true, false, ◌&&◌, ◌≡◌, refl, sym, ap, ◌∙◌, Option, none, some,
  List, [], ◌∷◌, All, if◌then◌else◌, Bool-cases, inl, inr, arith,
}
use nestjs_starter.Storage.{Visibility, Outcome, done, fail, UploadInput, SaveTarget}
use nestjs_starter.Storage.Provider.{Provider, IsFiled, IsObjectStore}

pub data Write (Buffer : Type 0) : Type 0 where
  save_write : UploadInput Buffer → SaveTarget → Write Buffer
  delete_write : String → Write Buffer

abbrev pub is_done {ℓ} : {A : Type ℓ} → Outcome A → Bool
is_done (done a) = true
is_done (fail e) = false

done-cases : {A : Type 0} (r : Outcome A) → is_done r ≡ true → (a : A) × (r ≡ done a)
done-cases (done a) e = (a, refl)
done-cases (fail f) e = absurd (cc)

module _ {Buffer : Type 0} where
  -- The key that a write is about is filed under its visibility.
  abbrev pub IsFiledWrite : Write Buffer → Type 0
  IsFiledWrite (save_write input target) = IsFiled target.visibility target.key
  IsFiledWrite (delete_write key) = (v : Visibility) × IsFiled v key

  -- the store after a write, as a function of the key
  abbrev pub write_spec : Write Buffer → (String → Option Buffer) → String → Option Buffer
  write_spec (save_write input target) m key =
      if str_eq key target.key then some input.buffer else m key
  write_spec (delete_write gone) m key = if str_eq key gone then none else m key

  abbrev pub run_spec : List (Write Buffer) → (String → Option Buffer) → String → Option Buffer
  run_spec [] m = m
  run_spec (w ∷ ws) m = run_spec ws (write_spec w m)

  -- The content of one key depends on no other key.
  run_spec_at :
      (ws : List (Write Buffer)) (m m' : String → Option Buffer) (key : String)
      → m key ≡ m' key
      → run_spec ws m key ≡ run_spec ws m' key
  run_spec_at [] m m' key e = e
  run_spec_at (save_write input target ∷ ws) m m' key e =
      run_spec_at ws _ _ key (ap (λ o. if str_eq key target.key then some input.buffer else o) e)
  run_spec_at (delete_write gone ∷ ws) m m' key e =
      run_spec_at ws _ _ key (ap (λ o. if str_eq key gone then none else o) e)

  module _ (P : Provider Buffer) where
    abbrev pub write : Write Buffer → P.State → Bool × P.State
    write (save_write input target) s = let (r, s') = P.save input target s in (is_done r, s')
    write (delete_write key) s = let (r, s') = P.delete key s in (is_done r, s')

    -- whether every write was good, and the state after them
    unfoldable pub run : List (Write Buffer) → P.State → Bool × P.State
    run [] s = (true, s)
    run (w ∷ ws) s =
        let (good, s') = write w s in let (rest, s'') = run ws s' in (good && rest, s'')

    module _ (S : IsObjectStore P) where
      view-write :
          (w : Write Buffer) (s : P.State) (v : Visibility) (key : String)
          → IsFiledWrite w
          → IsFiled v key
          → (write w s).0 ≡ true
          → S.view (write w s).1 key ≡ write_spec w (S.view s) key
      view-write (save_write input target) s v key h h' good =
          elim (Bool-cases (str_eq key target.key)) [
            | inl t ↦
                let (file, e) = done-cases (P.save input target s).0 good in
                rw t (
                  ap (S.view (P.save input target s).1) ((eq_iff key target.key).0 t)
                  ∙ S.view-save_done input target file s (P.save input target s).1 h
                      (ap (λ o. (o, (P.save input target s).1)) e))
            | inr f ↦ rw f (
                S.view-save_other input target v key s h h'
                  (λ e. absurd (cc (f, (eq_iff key target.key).1 e))))
          ]
      view-write (delete_write gone) s v key (w, h) h' good = elim (Bool-cases (str_eq key gone)) [
        | inl t ↦
            let (u, e) = done-cases (P.delete gone s).0 good in
            rw t (
              ap (S.view (P.delete gone s).1) ((eq_iff key gone).0 t)
              ∙ S.view-delete_done w gone s (P.delete gone s).1 h
                  (ap (λ o. (o, (P.delete gone s).1)) e))
        | inr f ↦
            rw f (
              S.view-delete_other w v gone key s h h' (λ e. absurd (cc (f, (eq_iff key gone).1 e))))
      ]

      -- Writes of which each is good leave the store that they spell.
      view-run :
          (ws : List (Write Buffer)) (s : P.State) (v : Visibility) (key : String)
          → All IsFiledWrite ws
          → IsFiled v key
          → (run ws s).0 ≡ true
          → S.view (run ws s).1 key ≡ run_spec ws (S.view s) key
      unfolding run
      view-run [] s v key hs h good = refl
      view-run (w ∷ ws) s v key (hw, hs) h good =
          let now : (write w s).0 ≡ true = ground (arith, good) in
          let after : (run ws (write w s).1).0 ≡ true = ground (arith, good) in
          view-run ws (write w s).1 v key hs h after
          ∙ run_spec_at ws (S.view (write w s).1) (write_spec w (S.view s)) key
              (view-write w s v key hw h now)

      -- A read after them answers what they spell, or fails.
      pub read-run :
          (ws : List (Write Buffer)) (s : P.State) (v : Visibility) (key : String)
          (content : Buffer)
          → All IsFiledWrite ws
          → IsFiled v key
          → (run ws s).0 ≡ true
          → P.read key (run ws s).1 ≡ done content
          → run_spec ws (S.view s) key ≡ some content
      read-run ws s v key content hs h good e =
          sym (view-run ws s v key hs h good) ∙ S.view-read v key content (run ws s).1 h e
