-- ===== src/Storage/Service/Batch.antt =====
-- `getAccessUrls` against `getAccessUrl`: src/infrastructure/storage/service/storage.service.ts.
use mathlib.Core.List.{append_assoc, append-nil}
use nestjs_starter.Prelude.{
  ℕ, suc, String, ◌≡◌, refl, sym, ap, ◌∙◌, subst, Option, none, some, List, [], ◌∷◌, ◌++◌, map,
  length, length-append, arith,
}
use nestjs_starter.Storage.{
  Visibility, public, private, Outcome, done, fail, ◌>>=◌, both_done, AccessUrl,
}
use nestjs_starter.Storage.Provider.{Provider}
use nestjs_starter.Storage.Validation.{Content}
use nestjs_starter.Storage.Compression.{Sharp}
use nestjs_starter.Storage.Supabase.{set_at, new_array}
use nestjs_starter.Storage.Service.{
  StorageConfig, visibility_of, public_access, ttl_of, access_by, get_access_url, sort_keys, put_at,
  scatter, sign_each, sign_with, sign_entries, get_access_urls,
}

both-cases :
    {A : Type 0} (r : Outcome A) (rs : Outcome (List A)) (l : List A)
    → both_done r rs ≡ done l
    → (a : A) × (m : List A) × (r ≡ done a) × (rs ≡ done m) × (l ≡ a ∷ m)
both-cases (fail e) rs l h = absurd (cc)
both-cases (done a) (fail e) l h = absurd (cc)
both-cases (done a) (done m) l h = (a, m, refl, refl, cc)

bind-cases :
    {A B : Type 0} (r : Outcome A) (f : A → Outcome B) (b : B)
    → r >>= f ≡ done b
    → (a : A) × (r ≡ done a) × (f a ≡ done b)
bind-cases (fail e) f b h = absurd (cc)
bind-cases (done a) f b h = (a, refl, h)

put_at-append :
    (pre xs : List (Option AccessUrl)) (x a : Option AccessUrl) (n : ℕ)
    → length pre ≡ n
    → put_at n a (pre ++ (x ∷ xs)) ≡ pre ++ (a ∷ xs)
put_at-append [] xs x a n e = ap (λ m. put_at m a (x ∷ xs)) (sym e)
put_at-append (y ∷ pre) xs x a n e =
    ap (λ m. put_at m a (y ∷ (pre ++ (x ∷ xs)))) (sym e)
    ∙ ap (λ l. y ∷ l) (put_at-append pre xs x a (length pre) refl)

module _ {A : Type 0} where
  set_at-append :
      (pre xs : List (Option A)) (x : Option A) (a : A) (n : ℕ)
      → length pre ≡ n
      → set_at n a (pre ++ (x ∷ xs)) ≡ pre ++ (some a ∷ xs)
  set_at-append [] xs x a n e = ap (λ m. set_at m a (x ∷ xs)) (sym e)
  set_at-append (y ∷ pre) xs x a n e =
      ap (λ m. set_at m a (y ∷ (pre ++ (x ∷ xs)))) (sym e)
      ∙ ap (λ l. y ∷ l) (set_at-append pre xs x a (length pre) refl)

  one_more : (pre xs : List (Option A)) (x : Option A) → (pre ++ (x ∷ [])) ++ xs ≡ pre ++ (x ∷ xs)
  one_more pre xs x = append_assoc pre (x ∷ []) xs

  length_one_more :
      (pre : List (Option A)) (x : Option A) (n : ℕ)
      → length pre ≡ n
      → length (pre ++ (x ∷ [])) ≡ suc n
  length_one_more pre x n e = omega (arith, length-append pre (x ∷ []), e)

module _ (to_lower_case : String → String) {Buffer : Type 0} (P : Provider Buffer)
    (R : Content Buffer) (S : Sharp Buffer) (config : StorageConfig) (ttl_seconds : Option ℕ)
    (now : ℕ) (s : P.State) where
  abbrev url_of : String → Outcome AccessUrl
  url_of key = get_access_url to_lower_case P R S config key ttl_seconds now s

  -- a call of `getAccessUrl` for each key
  abbrev pub one_by_one : List String → Outcome (List AccessUrl)
  one_by_one [] = done []
  one_by_one (k ∷ keys) =
      both_done (get_access_url to_lower_case P R S config k ttl_seconds now s) (one_by_one keys)

  abbrev ttl : ℕ
  ttl = ttl_of to_lower_case P R S config ttl_seconds

  abbrev sorted :
      ℕ
      → List String
      → List (Option AccessUrl)
      → List (String × ℕ)
      → Outcome (List (Option AccessUrl) × List (String × ℕ))
  sorted = sort_keys to_lower_case P R S config

  abbrev each : List String → Outcome (List (Option AccessUrl))
  each keys = sign_each P keys ttl now s

  -- What the two loops make of the keys from an index on, whatever stands before it.
  record Placed (n : ℕ) (keys : List String) (urls : List AccessUrl) : Type 0 where
    array : List (Option AccessUrl)
    entries : List (String × ℕ)
    signed : List (Option AccessUrl)
    sort :
        (pre : List (Option AccessUrl)) (before : List (String × ℕ))
        → length pre ≡ n
        → sorted n keys (pre ++ new_array (length keys)) before
          ≡ done (pre ++ array, before ++ entries)
    sign : each (map (λ e. e.0) entries) ≡ done signed
    fill :
        (pre : List (Option AccessUrl))
        → length pre ≡ n
        → scatter entries signed (pre ++ array) ≡ pre ++ map some urls

  module _ (n : ℕ) (key : String) (keys : List String) (u : AccessUrl) (urls : List AccessUrl)
      (rest : Placed (suc n) keys urls) where
    Placed-public :
        visibility_of key ≡ done public
        → public_access to_lower_case P R S config key ≡ done u
        → Placed n (key ∷ keys) (u ∷ urls)
    unfolding sort_keys
    Placed-public v e = record {
      array = some u ∷ rest.array;
      entries = rest.entries;
      signed = rest.signed;
      sort = λ pre before at.
          let after = pre ++ (some u ∷ []) in
          rw (v, e)
            (ap (λ l. sorted (suc n) keys l before)
                (set_at-append pre (new_array (length keys)) none u n at
                  ∙ sym (one_more pre (new_array (length keys)) (some u)))
              ∙ rest.sort after before (length_one_more pre (some u) n at)
              ∙ ap (λ l. done (l, before ++ rest.entries)) (one_more pre rest.array (some u)));
      sign = rest.sign;
      fill = λ pre at.
          ap (scatter rest.entries rest.signed) (sym (one_more pre rest.array (some u)))
          ∙ rest.fill (pre ++ (some u ∷ [])) (length_one_more pre (some u) n at)
          ∙ one_more pre (map some urls) (some u);
    }

    Placed-private :
        visibility_of key ≡ done private
        → P.signed_url key ttl now s ≡ done u
        → Placed n (key ∷ keys) (u ∷ urls)
    unfolding sort_keys
    Placed-private v e = record {
      array = none ∷ rest.array;
      entries = (key, n) ∷ rest.entries;
      signed = some u ∷ rest.signed;
      sort = λ pre before at.
          let after = pre ++ (none ∷ []) in
          rw v (
            ap (λ l. sorted (suc n) keys l (before ++ ((key, n) ∷ [])))
              (sym (one_more pre (new_array (length keys)) none))
            ∙ rest.sort after (before ++ ((key, n) ∷ [])) (length_one_more pre none n at)
            ∙ ap done (λ i. (
              one_more pre rest.array none i,
              append_assoc before ((key, n) ∷ []) rest.entries i,
            )));
      sign = rw (e, rest.sign) refl;
      fill = λ pre at.
          ap (scatter rest.entries rest.signed) (
            put_at-append pre rest.array none (some u) n at
            ∙ sym (one_more pre rest.array (some u)))
          ∙ rest.fill (pre ++ (some u ∷ [])) (length_one_more pre (some u) n at)
          ∙ one_more pre (map some urls) (some u);
    }

  placed :
      (n : ℕ) (keys : List String) (urls : List AccessUrl)
      → one_by_one keys ≡ done urls
      → Placed n keys urls
  placed n [] urls e =
      let none_left : urls ≡ [] =
        (elim urls as (λ l. done [] ≡ done l → l ≡ []) [
          | [] ↦ λ _. refl
          | x ∷ l ↦ λ h. absurd (cc)
        ])
          e in
      subst (Placed n []) (sym none_left) (record {
        array = [];
        entries = [];
        signed = [];
        sort =
            unfold sort_keys in
            λ pre before at. ap (λ l. done (pre ++ [], l)) (sym (append-nil before));
        sign = refl;
        fill = λ pre at. refl;
      })
  placed n (key ∷ keys) urls e =
      let (u, us, single, others, whole) = both-cases (url_of key) (one_by_one keys) urls e in
      let rest = placed (suc n) keys us others in
      let (v, is_v, got) =
        bind-cases (visibility_of key)
          (λ v. access_by to_lower_case P R S config v key ttl_seconds now s) u
          (sym (opened key) ∙ single) in
      subst (Placed n (key ∷ keys)) (sym whole) (place v n key keys u us rest is_v got)
    where
      opened :
          (key : String)
          → url_of key ≡ (
              visibility_of key >>= λ v.
              access_by to_lower_case P R S config v key ttl_seconds now s)
      opened key = unfold get_access_url in refl

      place :
          (v : Visibility) (n : ℕ) (key : String) (keys : List String) (u : AccessUrl)
          (us : List AccessUrl)
          → Placed (suc n) keys us
          → visibility_of key ≡ done v
          → access_by to_lower_case P R S config v key ttl_seconds now s ≡ done u
          → Placed n (key ∷ keys) (u ∷ us)
      place public n key keys u us rest is_v got = Placed-public n key keys u us rest is_v got
      place private n key keys u us rest is_v got = Placed-private n key keys u us rest is_v got

  -- If each key alone gets a URL, and the provider signs many keys as it signs each, the batch gets
  -- the same URLs, each at the place of its key.
  pub get_access_urls-one_by_one :
      (keys : List String) (urls : List AccessUrl)
      → ((ks : List String) → sign_with P P.signed_urls ks ttl now s ≡ sign_each P ks ttl now s)
      → one_by_one keys ≡ done urls
      → get_access_urls to_lower_case P R S config keys ttl_seconds now s ≡ done (map some urls)
  unfolding get_access_urls
  get_access_urls-one_by_one keys urls agrees e =
      let all = placed 0 keys urls e in
      ap (λ r. r >>= λ p. sign_entries to_lower_case P R S config p.1 ttl now s p.0)
        (all.sort [] [] refl)
      ∙ signed_all all.entries all.signed all.array all.sign
      ∙ ap done (all.fill [] refl)
    where
      signed_all :
          (entries : List (String × ℕ)) (signed array : List (Option AccessUrl))
          → each (map (λ e. e.0) entries) ≡ done signed
          → sign_entries to_lower_case P R S config entries ttl now s array
            ≡ done (scatter entries signed array)
      signed_all [] signed array e = refl
      signed_all (x ∷ entries) signed array e =
          ap (λ r. r >>= λ l. done (scatter (x ∷ entries) l array))
            (agrees (map (λ e. e.0) (x ∷ entries)) ∙ e)
