-- ===== src/ListAppend/Search.antt =====
-- listappend/listappend.go: the breadth-first search that path makes over the transactions, and
-- nonadjacent over pairs of a transaction and whether it was arrived at by rw. Both are one search
-- here, over the vertices of any graph: `next` are the edges that the source's loop does not pass
-- over, and `accept` is what the source asks of a walk before it returns it.
pub mod Graph
pub mod Walks
pub mod Loop
pub mod Complete
pub mod Correct
use torx.Base.{
  ℕ, zero, suc, ◌+◌, List, [], ◌∷◌, ◌++◌, Option, none, some, Bool, true, false, ◌||◌, length,
  if◌then◌else◌,
}

-- The edge kinds WW, WR, RW, Realtime and Process.
pub data Kind : Type 0 where
  write_write write_read read_write realtime process : Kind

-- What was seen, the latest first: a vertex with its hop, that is the vertex before it and the kind
-- of the edge between them. The source of the search has no hop.
abbrev pub Seen : Type 0 → Type 0
Seen A = List (A × Option (A × Kind))

-- The vertices and the edge kinds of a walk.
abbrev pub Found : Type 0 → Type 0
Found A = List A × List Kind

-- The loop over the edges of a vertex ends the search, or goes on with what is seen and queued.
pub data Scanned (A : Type 0) : Type 0 where
  ends : Option (Found A) → Scanned A
  going : Seen A → List A → Scanned A

module _ {A : Type 0} where
  -- "Walk back": appending and then reversing, as the source does, is putting in front. It is on
  -- fuel, and `none` when the fuel is spent.
  pub walk_back : ℕ → (A → Option (A × Kind)) → A → List A → List Kind → Option (Found A)
  walk_back zero hop x verts kinds = none
  walk_back (suc fuel) hop x verts kinds = elim (hop x) [
    | none ↦ some (x ∷ verts, kinds)
    | some (prev, kind) ↦ walk_back fuel hop prev (x ∷ verts) (kind ∷ kinds)
  ]

module _ {A : Type 0} (same : A → A → Bool) where
  abbrev pub has : Seen A → A → Bool
  has [] x = false
  has ((v, h) ∷ seen) x = if same v x then true else has seen x

  abbrev pub hop_of : Seen A → A → Option (A × Kind)
  hop_of [] x = none
  hop_of ((v, h) ∷ seen) x = if same v x then h else hop_of seen x

  module _ (next : A → List (A × Kind)) (accept : Found A → Bool) (dst : A) where
    pub scan : A → List (A × Kind) → Seen A → List A → Scanned A
    scan v [] seen q = going seen q
    scan v ((to, kind) ∷ es) seen q =
        let (seen', q') =
          if same to dst || has seen to
          then (seen, q)
          else ((to, some (v, kind)) ∷ seen, q ++ to ∷ []) in
        let later = scan v es seen' q' in
        if same to dst
        then elim (walk_back (length seen) (hop_of seen) v [] (kind ∷ [])) [
          | none ↦ ends none
          | some walk ↦ if accept walk then ends (some walk) else later
        ]
        else later

    -- The loop over the queue, on fuel: `none` also when it is spent.
    pub loop : ℕ → Seen A → List A → Option (Found A)
    loop fuel seen [] = none
    loop zero seen (v ∷ q) = none
    loop (suc fuel) seen (v ∷ q) = elim (scan v (next v) seen q) [
      | ends result ↦ result
      | going seen' q' ↦ loop fuel seen' q'
    ]

    unfoldable pub search : ℕ → A → Option (Found A)
    unfolding loop
    search fuel src = loop fuel ((src, none) ∷ []) (src ∷ [])
