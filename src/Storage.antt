-- ===== src/Storage.antt =====
-- src/infrastructure/storage/core: the data of the storage component and its errors. What the
-- caller of an asynchronous method awaits is an `Outcome`, beside the state where there is one.
pub mod Paths
pub mod Provider
pub mod Local
pub mod Supabase
pub mod Tests
pub mod Names
pub mod Sizes
pub mod Validation
pub mod Compression
pub mod Service
pub mod Samples
pub mod Examples
use nestjs_starter.Prelude.{ℕ, String, Option, List, [], ◌∷◌}

pub data Visibility : Type 0 where
  public private : Visibility

abbrev pub visibility_value : Visibility → String
visibility_value public = "public"
visibility_value private = "private"

-- The error classes; the text of a wrapped cause is kept, the cause itself is not.
pub data StorageFault : Type 0 where
  storage_error : String → StorageFault
  -- its code; the message, which spells names and sizes for a person, is left out
  file_validation_error : String → StorageFault
  file_not_found_error : String → StorageFault
  storage_provider_error : String → StorageFault
  -- an exception of the runtime, for the property of an `undefined`
  type_error : StorageFault

pub data Outcome {ℓ} (A : Type ℓ) : Type ℓ where
  done : A → Outcome A
  fail : StorageFault → Outcome A

module _ {ℓ} {A B : Type ℓ} where
  infixl 5 ◌>>=◌
  abbrev pub ◌>>=◌ : Outcome A → (A → Outcome B) → Outcome B
  done a >>= f = f a
  fail e >>= f = fail e

  abbrev pub map_done : (A → B) → Outcome A → Outcome B
  map_done f (done a) = done (f a)
  map_done f (fail e) = fail e

  -- A pure step, then a stateful one that is run where the first was good.
  abbrev pub with_done : {S : Type ℓ} → Outcome A → (A → S → Outcome B × S) → S → Outcome B × S
  with_done (done a) f s = f a s
  with_done (fail e) f s = (fail e, s)

pub record UploadInput (Buffer : Type 0) : Type 0 where
  pub buffer : Buffer
  pub original_name : String
  pub mime_type : String
  pub size : ℕ

pub record SaveTarget : Type 0 where
  pub key : String
  pub visibility : Visibility
  pub content_type : Option String

pub record StoredFile : Type 0 where
  pub key : String
  pub visibility : Visibility
  pub size : ℕ
  pub mime_type : String

pub record AccessUrl : Type 0 where
  pub url : String
  -- in milliseconds
  pub expires_at : Option ℕ

abbrev pub both_done {ℓ} : {A : Type ℓ} → Outcome A → Outcome (List A) → Outcome (List A)
both_done r rs = r >>= λ a. rs >>= λ l. done (a ∷ l)

module _ {ℓ} {S A : Type ℓ} where
  -- `Promise.all`: every call runs, and the first failure in the list is the answer.
  abbrev pub promise_all : List (S → Outcome A × S) → S → Outcome (List A) × S
  promise_all [] s = (done [], s)
  promise_all (m ∷ ms) s =
      let (r, s') = m s in let (rs, s'') = promise_all ms s' in (both_done r rs, s'')
