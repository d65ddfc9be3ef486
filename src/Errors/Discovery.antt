-- ===== src/Errors/Discovery.antt =====
-- What errors.Is finds in the errors of errors.go.
use torx.Base.{
  ◌≡◌, refl, ◌∙◌, List, [], ◌∷◌, ◌++◌, Bool, true, false, ◌||◌, Option, none, some, arith,
}
use torx.Errors.{
  Category, allocation, backend, readiness_timeout, shutdown_timeout, service, same_category, Error,
  wrap, is, is_any, MultiError, append, err, to_errors,
}

same_category_self : (c : Category) → same_category c c ≡ true
same_category_self allocation = refl
same_category_self backend = refl
same_category_self readiness_timeout = refl
same_category_self shutdown_timeout = refl
same_category_self service = refl

-- Whether an error that may be nil is in a category.
abbrev pub is_maybe : Category → Option Error → Bool
is_maybe d none = false
is_maybe d (some cause) = is d cause

-- An error built by Wrap is in a category exactly when the category is the one it was given, or
-- its cause is in it; so it is always in its own.
pub is-wrap :
    (kind d : Category) (op : _) (cause : Option Error)
    → is d (wrap kind op cause) ≡ (same_category kind d || is_maybe d cause)
unfolding is wrap
is-wrap kind d op none = ground arith
is-wrap kind d op (some cause) = refl

is_any-append :
    (d : Category) (es : List Error) (e : Error)
    → is_any d (to_errors (es ++ e ∷ [])) ≡ (is_any d (to_errors es) || is d e)
unfolding is
is_any-append d [] e = ground arith
is_any-append d (x ∷ es) e = ground (arith, is_any-append d es e)

err-is_any : (d : Category) (m : MultiError) → is_maybe d (err m) ≡ is_any d (to_errors m.errs)
unfolding err is
err-is_any d m = go m.errs
  where
    go : (es : List Error) → is_maybe d (err (record { errs = es })) ≡ is_any d (to_errors es)
    go [] = refl
    go (e ∷ es) = refl

-- What a MultiError reports after an Append is in a category exactly when what it reported before
-- is, or the appended error is: no recorded failure masks another.
pub is-err-append :
    (d : Category) (m : MultiError) (e : Option Error)
    → is_maybe d (err (append m e)) ≡ (is_maybe d (err m) || is_maybe d e)
unfolding append
is-err-append d m none = ground arith
is-err-append d m (some e) =
    err-is_any d (append m (some e)) ∙ is_any-append d m.errs e ∙ rw (err-is_any d m)
