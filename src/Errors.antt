-- ===== src/Errors.antt =====
-- errors.go: the categories of errors, *Error with its cause, and MultiError. `plain` is an error
-- of another package; errors.Is and errors.Join are the standard library's.
pub mod Discovery
use torx.Base.{
  ℕ, String, List, [], ◌∷◌, ◌++◌, Bool, true, false, not, ◌||◌, ◌&&◌, Option, none, some,
  if◌then◌else◌, str_eq,
}

pub data Category : Type 0 where
  allocation backend readiness_timeout shutdown_timeout service : Category

abbrev pub same_category : Category → Category → Bool
same_category allocation allocation = true
same_category backend backend = true
same_category readiness_timeout readiness_timeout = true
same_category shutdown_timeout shutdown_timeout = true
same_category service service = true
same_category _ _ = false

-- `error` as a value. `wrapped` is a *Error with no cause, `caused` one with a cause, and `joined`
-- what errors.Join returns.
mutual
  pub data Error : Type 0 where
    sentinel : Category → Error
    plain : String → Error
    wrapped : String → Error → Error
    caused : String → Error → Error → Error
    joined : Errors → Error

  pub data Errors : Type 0 where
    nil : Errors
    cons : Error → Errors → Errors

-- `Wrap`: `none` is a nil cause.
unfoldable pub wrap : Category → String → Option Error → Error
wrap kind op none = wrapped op (sentinel kind)
wrap kind op (some cause) = caused op (sentinel kind) cause

-- `Unwrap`: the category, and the cause if there is one.
unfoldable pub unwrap : Error → Errors
unwrap (wrapped op kind) = cons kind nil
unwrap (caused op kind cause) = cons kind (cons cause nil)
unwrap (joined es) = es
unwrap (sentinel c) = nil
unwrap (plain s) = nil

-- errors.Is for a category: the error is the sentinel, or one that it unwraps to is.
unfoldable mutual
  pub is : Category → Error → Bool
  is c (sentinel d) = same_category d c
  is c (plain s) = false
  is c (wrapped op kind) = is c kind
  is c (caused op kind cause) = is c kind || is c cause
  is c (joined es) = is_any c es

  pub is_any : Category → Errors → Bool
  is_any c nil = false
  is_any c (cons e es) = is c e || is_any c es

pub record MultiError : Type 0 where
  pub errs : List Error

-- `Append`: a nil error is not recorded.
unfoldable pub append : MultiError → Option Error → MultiError
append m none = m
append m (some e) = record { errs = m.errs ++ e ∷ [] }

abbrev pub to_errors : List Error → Errors
to_errors [] = nil
to_errors (e ∷ es) = cons e (to_errors es)

-- `Err`: nil if nothing was recorded, and otherwise the errors joined.
unfoldable pub err : MultiError → Option Error
err m = elim m.errs [ [] ↦ none | e ∷ es ↦ some (joined (to_errors (e ∷ es))) ]
