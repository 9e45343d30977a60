-- ===== src/Filters/Handlers/Validation.antt =====
-- `flattenMessages` of src/core/filters/handlers/i18n-validation-error.handler.ts.
use nestjs_starter.Prelude.{◌≡◌, ap, sym, ◌∙◌, String, Option, none, some, List, [], ◌∷◌, ◌++◌}
use mathlib.Core.List.{append-nil, append_assoc}
use nestjs_starter.Filters.Handlers.{
  ValidationErrors, validation_error, no_errors, error_then, texts, walk, flatten_messages,
}

-- the texts among an error's constraints
abbrev own : List (Option String) → List String
own [] = []
own (none ∷ rest) = own rest
own (some message ∷ rest) = message ∷ own rest

-- every error's own messages, and behind them those of its children
abbrev pub messages_of : ValidationErrors → List String
messages_of no_errors = []
messages_of (error_then (validation_error constraints children) rest) =
    own constraints ++ (messages_of children ++ messages_of rest)

texts-own :
    (constraints : List (Option String)) (out : List String)
    → texts constraints out ≡ out ++ own constraints
texts-own [] out = sym (append-nil out)
texts-own (none ∷ rest) out = texts-own rest out
texts-own (some message ∷ rest) out =
    texts-own rest (out ++ message ∷ []) ∙ append_assoc out (message ∷ []) (own rest)

walk-messages :
    (nested : ValidationErrors) (out : List String) → walk nested out ≡ out ++ messages_of nested
unfolding walk
walk-messages no_errors out = sym (append-nil out)
walk-messages (error_then (validation_error constraints children) rest) out =
    walk-messages rest (walk children (texts constraints out))
    ∙ ap (λ x. x ++ messages_of rest)
        (walk-messages children (texts constraints out)
          ∙ ap (λ x. x ++ messages_of children) (texts-own constraints out))
    ∙ append_assoc (out ++ own constraints) (messages_of children) (messages_of rest)
    ∙ append_assoc out (own constraints) (messages_of children ++ messages_of rest)

-- Nested validation errors are reported in order, each error's messages in front of those of its
-- children, whatever the depth.
pub flatten_messages_lem :
    (nested : ValidationErrors) → flatten_messages nested ≡ messages_of nested
unfolding flatten_messages
flatten_messages_lem nested = walk-messages nested []
