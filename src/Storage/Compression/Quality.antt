-- ===== src/Storage/Compression/Quality.antt =====
-- The loop that lowers the quality ends: src/infrastructure/storage/processing/sharp.image-processor.ts.
use nestjs_starter.Prelude.{
  ℕ, zero, suc, ◌+◌, ◌-◌, ◌≤◌, ◌<◌, ◌≡◌, refl, sym, ap, ◌∙◌, ◌⊎◌, inl, inr, Bool, true, false,
  Option, some, ltb, arith, Bool-cases,
}
use nestjs_starter.Storage.{Outcome, done, fail}
use nestjs_starter.Storage.Compression.{
  CompressionPolicy, Sharp, step, goes_on, encode_at, lower_quality,
}

module _ {Buffer : Type 0} (S : Sharp Buffer) (policy : CompressionPolicy) (buffer : Buffer)
    (target_bytes : ℕ) (dimensions : ℕ × ℕ) where
  abbrev loop : ℕ → ℕ → Buffer → Option (Outcome (ℕ × Buffer))
  loop = lower_quality S policy buffer target_bytes dimensions

  step-ends :
      (b : Bool) (r : Outcome Buffer) (quality : ℕ) (current : Buffer)
      (again : Buffer → Option (Outcome (ℕ × Buffer)))
      → (b ≡ true → (c : Buffer) → (o : Outcome (ℕ × Buffer)) × (again c ≡ some o))
      → (o : Outcome (ℕ × Buffer)) × (step b r quality current again ≡ some o)
  step-ends false r quality current again h = (done (quality, current), refl)
  step-ends true (fail e) quality current again h = (fail e, refl)
  step-ends true (done c) quality current again h = h refl c

  -- Fuel above the quality is enough: each turn takes from a quality above a floor.
  pub lower_quality-ends :
      (fuel quality : ℕ) (current : Buffer)
      → quality < fuel
      → (o : Outcome (ℕ × Buffer)) × (loop fuel quality current ≡ some o)
  unfolding lower_quality
  lower_quality-ends zero quality current h = absurd (omega arith)
  lower_quality-ends (suc fuel) quality current h =
      step-ends (goes_on S policy buffer target_bytes dimensions quality current)
        (encode_at S policy buffer target_bytes dimensions (quality - 5)) quality current
        (λ c. loop fuel (quality - 5) c)
        (λ more c. lower_quality-ends fuel (quality - 5) c (ground (arith, more, h)))

  -- What the loop gives, from a buffer at a quality, by its quality and its content.
  pub record IsLowered (quality : ℕ) (current : Buffer) (q : ℕ) (last : Buffer) : Type 0 where
    pub at_most : q ≤ quality
    pub small_or_least : (S.size_of last ≤ target_bytes) ⊎ (q ≤ policy.min_quality)
    pub origin :
        ((q ≡ quality) × (last ≡ current))
        ⊎ ((encode_at S policy buffer target_bytes dimensions q ≡ done last)
            × (policy.min_quality < q + 5))

  step-IsLowered :
      (b : Bool) (r : Outcome Buffer) (quality : ℕ) (current : Buffer)
      (again : Buffer → Option (Outcome (ℕ × Buffer))) (q : ℕ) (last : Buffer)
      → goes_on S policy buffer target_bytes dimensions quality current ≡ b
      → ((c : Buffer)
          → b ≡ true
          → r ≡ done c
          → again c ≡ some (done (q, last))
          → IsLowered quality current q last)
      → step b r quality current again ≡ some (done (q, last))
      → IsLowered quality current q last
  step-IsLowered false r quality current again q last t h e =
      let same_q : q ≡ quality = cc in
      let same_b : last ≡ current = cc in
      record {
        at_most = omega (arith, same_q);
        small_or_least = stopped quality q current last t same_q same_b;
        origin = inl (same_q, same_b);
      }
    where
      stopped :
          (quality q : ℕ) (current last : Buffer)
          → goes_on S policy buffer target_bytes dimensions quality current ≡ false
          → q ≡ quality
          → last ≡ current
          → (S.size_of last ≤ target_bytes) ⊎ (q ≤ policy.min_quality)
      stopped quality q current last t e f =
          rw f (elim (Bool-cases (ltb target_bytes (S.size_of current))) [
            | inl large ↦ inr (ground (arith, t, large, e))
            | inr small ↦ inl (ground (arith, small))
          ])
  step-IsLowered true (fail f) quality current again q last t h e = absurd (cc)
  step-IsLowered true (done c) quality current again q last t h e = h c refl refl e

  pub lower_quality-IsLowered :
      (fuel quality : ℕ) (current : Buffer) (q : ℕ) (last : Buffer)
      → loop fuel quality current ≡ some (done (q, last))
      → IsLowered quality current q last
  unfolding lower_quality
  lower_quality-IsLowered zero quality current q last e = absurd (cc)
  lower_quality-IsLowered (suc fuel) quality current q last e =
      step-IsLowered (goes_on S policy buffer target_bytes dimensions quality current)
        (encode_at S policy buffer target_bytes dimensions (quality - 5)) quality current
        (λ c. loop fuel (quality - 5) c) q last refl
        (λ c more at again.
          let rest = lower_quality-IsLowered fuel (quality - 5) c q last again in
          let above : policy.min_quality < quality = ground (arith, more) in
          record {
            at_most = omega (arith, rest.at_most);
            small_or_least = rest.small_or_least;
            origin = elim rest.origin [
              | inl (same, is_c) ↦ inr (
                ap (encode_at S policy buffer target_bytes dimensions) same
                    ∙ at
                    ∙ ap done (sym is_c),
                omega (arith, same, above),
              )
              | inr it ↦ inr it
            ];
          })
        e

  -- The loop that lowers the quality ends, from any quality. Where it gives a buffer, its quality is
  -- at most the first; it is small enough or its quality is at most the least one; and either it is
  -- the buffer that the loop began with, at the first quality, or it was encoded at its quality, and
  -- that is not below the least one by 5 or more.
  pub lower_quality-total :
      (quality : ℕ) (current : Buffer)
      → (o : Outcome (ℕ × Buffer)) × (lower_quality S policy buffer target_bytes dimensions
            (suc quality)
            quality
            current
          ≡ some o)
        × ((q : ℕ) (last : Buffer) → o ≡ done (q, last) → IsLowered quality current q last)
  lower_quality-total quality current =
      let (o, ends) = lower_quality-ends (suc quality) quality current (omega arith) in
      (
        o,
        ends,
        λ q last e. lower_quality-IsLowered (suc quality) quality current q last (ends ∙ ap some e),
      )
