-- ===== src/Cache/ReadThrough.antt =====
-- Entries that agree with their source of truth: src/infrastructure/cache/cache.service.ts.
use nestjs_starter.Prelude.{
  ℕ, ◌≤◌, String, str_eq, eq_iff, ◌≡◌, ◌≢◌, sym, subst, refl, ap, inl, inr, Option, none, some,
  Bool-cases,
}
use nestjs_starter.Cache.{CacheDriver, fill, resolved, get_or_set}

module _ {V : Type 0} (D : CacheDriver V) where
  pub fill-some :
      (now : ℕ) (key : String) (ttl : ℕ) (v : V) (s : D.Store)
      → fill D now key ttl (some v) s ≡ D.set now key v ttl s
  unfolding fill
  fill-some now key ttl v s = refl

  pub get_or_set_hit :
      (now later : ℕ) (key : String) (fresh : Option V) (ttl : ℕ) (s : D.Store) (v : V)
      → D.get now key s ≡ some v
      → get_or_set D now later key fresh ttl s ≡ (some v, s)
  unfolding get_or_set resolved
  get_or_set_hit now later key fresh ttl s v e = simp e refl

  pub get_or_set_miss :
      (now later : ℕ) (key : String) (fresh : Option V) (ttl : ℕ) (s : D.Store)
      → D.get now key s ≡ none
      → get_or_set D now later key fresh ttl s ≡ (fresh, fill D later key ttl fresh s)
  unfolding get_or_set resolved
  get_or_set_miss now later key fresh ttl s e = simp e refl

  -- every entry that can be read from an instant on is true of its key
  abbrev pub IsCoherent : (String → V → Type 0) → ℕ → D.Store → Type 0
  IsCoherent Truth now s = (k : String) (v : V) → D.get now k s ≡ some v → Truth k v

  module _ (Truth : String → V → Type 0) where
    pub IsCoherent-later :
        (now later : ℕ) (s : D.Store)
        → now ≤ later
        → IsCoherent Truth now s
        → IsCoherent Truth later s
    IsCoherent-later now later s h c k v e = c k v (D.get-later now later k v s h e)

    pub fill-IsCoherent :
        (now later : ℕ) (key : String) (ttl : ℕ) (fresh : Option V) (s : D.Store)
        → ((v : V) → fresh ≡ some v → Truth key (D.copy v))
        → IsCoherent Truth now s
        → IsCoherent Truth now (fill D later key ttl fresh s)
    unfolding fill
    fill-IsCoherent now later key ttl none s true_fresh c = c
    fill-IsCoherent now later key ttl (some fresh) s true_fresh c = λ k v e.
        elim (D.get-set now later ttl key k fresh v s e) [
          | inl (same, stored) ↦
              subst (λ x. Truth x v) same
                (subst (λ x. Truth key x) (sym stored) (true_fresh fresh refl))
          | inr old ↦ c k v old
        ]

    pub get_or_set-IsCoherent :
        (from now later : ℕ) (key : String) (fresh : Option V) (ttl : ℕ) (s : D.Store)
        → ((v : V) → fresh ≡ some v → Truth key (D.copy v))
        → IsCoherent Truth from s
        → IsCoherent Truth from (get_or_set D now later key fresh ttl s).1
    unfolding get_or_set resolved
    get_or_set-IsCoherent from now later key fresh ttl s true_fresh c = go (D.get now key s)
      where
        go : (o : Option V) → IsCoherent Truth from (resolved D later key ttl o fresh s).1
        go (some cached) = c
        go none = fill-IsCoherent from later key ttl fresh s true_fresh c

    -- Deleting a key repairs what a change of the truth about that key alone has broken.
    pub delete-IsCoherent :
        (Truth' : String → V → Type 0) (now : ℕ) (key : String) (s : D.Store)
        → ((k : String) (v : V) → k ≢ key → Truth k v → Truth' k v)
        → IsCoherent Truth now s
        → IsCoherent Truth' now (D.delete key s)
    delete-IsCoherent Truth' now key s others c k v e = elim (Bool-cases (str_eq k key)) [
      | inl same ↦ absurd (
          cc (
            e,
            ap (λ x. D.get now x (D.delete key s)) ((eq_iff k key).0 same),
            D.get-delete now key s,
          ))
      | inr other ↦
          others k v (λ same. cc (other, (eq_iff k key).1 same))
            (c k v (D.get-delete_other now key k v s e))
    ]
