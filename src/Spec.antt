-- ===== src/Spec.antt =====
-- spec.go: what a job asks of the nodes it allocates. `Optional` is the library's `Option`
-- (`Get` is the match on it), and a `Labels` set is the list of its tags.
use torx.Base.{
  ℕ, String, List, [], ◌∷◌, Option, none, some, Bool, true, false, not, ◌&&◌, length, any,
  replicate, if◌then◌else◌, str_eq,
}
use torx.Base.Int.{ℤ, pos, negsuc, ltb_ℤ, Float, float_lt}

-- The nil set and the empty set are one.
abbrev pub Labels : Type 0
Labels = List String

unfoldable pub has : Labels → String → Bool
has l tag = any (λ t. str_eq t tag) l

unfoldable pub subset : Labels → Labels → Bool
subset [] of = true
subset (t ∷ l) of = has of t && subset l of

pub record Resources : Type 0 where
  pub cpus : Option Float
  pub memory_mb : Option ℤ
  pub labels : Labels

pub record NodeSpec : Type 0 where
  pub os : String
  pub required : Resources
  pub preferred : List Resources
  pub role : String

-- The two tests of `SatisfiedBy` on a quantity: an unset requirement is a wildcard, and a set one
-- wants a known capacity that is not below it.
cpus_suffice : Option Float → Option Float → Bool
cpus_suffice none have = true
cpus_suffice (some req) none = false
cpus_suffice (some req) (some have) = not (float_lt have req)

memory_suffices : Option ℤ → Option ℤ → Bool
memory_suffices none have = true
memory_suffices (some req) none = false
memory_suffices (some req) (some have) = not (ltb_ℤ have req)

unfoldable pub satisfied_by : NodeSpec → Resources → Bool
unfolding cpus_suffice memory_suffices subset has
satisfied_by s capacity =
    if not (cpus_suffice s.required.cpus capacity.cpus)
    then false
    else if not (memory_suffices s.required.memory_mb capacity.memory_mb)
    then false
    else subset s.required.labels capacity.labels

pub record PoolSpec : Type 0 where
  pub nodes : List NodeSpec

unfoldable pub homogeneous : ℤ → NodeSpec → PoolSpec
homogeneous (pos count) spec = record { nodes = replicate count spec }
homogeneous (negsuc _) spec = record { nodes = [] }

unfoldable pub size : PoolSpec → ℕ
size p = length p.nodes
