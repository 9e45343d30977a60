-- ===== src/Exec.antt =====
-- Services that mutate a state and may throw an HTTP exception. What was written before a throw
-- stays written, so the state comes back beside the exception too.
use nestjs_starter.Prelude.{ℕ, String, Option, none, some, Bool, true, false}

-- What `Translator.tr(key, args)` is asked for: the key, and the number among the arguments.
pub data Message : Type 0 where
  tr : String → Message
  tr_number : String → ℕ → Message
  text : String → Message

-- The exception classes of `@nestjs/common` that the services throw.
pub data HttpException : Type 0 where
  bad_request unauthorized forbidden not_found conflict : Message → HttpException
  internal_server_error service_unavailable : Message → HttpException

pub data Result {ℓ} (A : Type ℓ) : Type ℓ where
  ok : A → Result A
  throw : HttpException → Result A

-- A call of an asynchronous method, from one state to the next.
abbrev pub Exec {ℓ} : Type ℓ → Type ℓ → Type ℓ
Exec S A = S → Result A × S

module _ {ℓ} {S A : Type ℓ} where
  abbrev pub pure : A → Exec S A
  pure a s = (ok a, s)

  abbrev pub raise : HttpException → Exec S A
  raise e s = (throw e, s)

  abbrev pub gets : (S → A) → Exec S A
  gets f s = (ok (f s), s)

module _ {ℓ} {S A B : Type ℓ} where
  abbrev pub continue : Result A → (A → Exec S B) → Exec S B
  continue (ok a) f s = f a s
  continue (throw e) f s = (throw e, s)

  infixl 5 ◌>>=◌ ◌>>◌
  abbrev pub ◌>>=◌ : Exec S A → (A → Exec S B) → Exec S B
  ◌>>=◌ m f s = let (r, s') = m s in continue r f s'

  abbrev pub ◌>>◌ : Exec S A → Exec S B → Exec S B
  m >> n = m >>= λ _. n

module _ {S : Type 0} where
  abbrev pub modify : (S → S) → Exec S (Unit {0})
  modify f s = (ok tt, f s)

  -- `if (bad) throw e;`
  abbrev pub throw_if : Bool → HttpException → Exec S (Unit {0})
  throw_if true e = raise e
  throw_if false e = pure tt

  -- `if (!found) throw e;`
  abbrev pub or_throw : {A : Type 0} → Option A → HttpException → Exec S A
  or_throw none e = raise e
  or_throw (some a) e = pure a
