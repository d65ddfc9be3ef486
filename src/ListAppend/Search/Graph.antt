-- ===== src/ListAppend/Search/Graph.antt =====
-- listappend/listappend.go: walks in a graph, which the searches are stated against.
use torx.Base.{◌≡◌, List, [], ◌∷◌, In, Distinct}
use torx.ListAppend.Search.{Kind, Found}

module _ {A : Type 0} (next : A → List (A × Kind)) where
  -- From a vertex through further ones to a last, along edges of these kinds.
  abbrev pub Walk : A → List A → List Kind → A → Type 0
  Walk v vs [] d = ⊥
  Walk v [] (k ∷ ks) d = In (d, k) (next v) × (ks ≡ [])
  Walk v (w ∷ vs) (k ∷ ks) d = In (w, k) (next v) × Walk w vs ks d

  -- A walk from one vertex to another that visits no vertex twice before its last.
  abbrev pub IsWalk : A → A → Found A → Type 0
  IsWalk s d ([], ks) = ⊥
  IsWalk s d (v ∷ vs, ks) = (v ≡ s) × Walk v vs ks d × Distinct (v ∷ vs)
