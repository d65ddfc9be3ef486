-- ===== src/ListAppend/Maps.antt =====
-- listappend/listappend.go: what holds of every value of a map holds of the one that is found.
use mathlib.Core.Option.{some-injective}
use torx.Base.{
  ◌≡◌, subst, List, [], ◌∷◌, Option, some, Bool, true, false, if◌then◌else◌, if_keeps, All,
}
use torx.ListAppend.{find, put}

module _ {K V : Type 0} (same : K → K → Bool) (P : V → Type 0) where
  pub find-All :
      (k : K) (kvs : List (K × V)) (v : V) → All (λ kv. P kv.1) kvs → find same k kvs ≡ some v → P v
  find-All k [] v h e = cc
  find-All k ((k', w) ∷ kvs) v h e =
      picked (same k' k) w (find same k kvs) v e h.0 (λ later. find-All k kvs v h.1 later)
    where
      picked :
          (b : Bool) (w : V) (o : Option V) (v : V)
          → (if b then some w else o) ≡ some v
          → P w
          → (o ≡ some v → P v)
          → P v
      picked true w o v e p h = subst P (some-injective w v e) p
      picked false w o v e p h = h e

  pub put-All :
      (k : K) (v : V) (kvs : List (K × V))
      → All (λ kv. P kv.1) kvs
      → P v
      → All (λ kv. P kv.1) (put same k v kvs)
  put-All k v [] h p = (p, tt)
  put-All k v ((k', w) ∷ kvs) h p =
      if_keeps (All (λ kv. P kv.1)) (same k' k) _ _ (p, h.1) (h.0, put-All k v kvs h.1 p)
