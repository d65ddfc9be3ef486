-- ===== src/ListAppend/Search/Loop.antt =====
-- listappend/listappend.go: what the loops of the search find is a walk.
use torx.Base.{
  ℕ, zero, suc, ◌≡◌, ◌≢◌, refl, subst, inl, inr, List, [], ◌∷◌, ◌++◌, Option, none, some, Bool,
  true, length, In, All, All-append, arith, Bool-cases,
}
use torx.ListAppend.Search.{Kind, Found, Seen, Scanned, ends, going, has, hop_of, scan, loop}
use torx.ListAppend.Search.Graph.{IsWalk}
use torx.ListAppend.Search.Walks.{Tree, climb}

module _ {A : Type 0} (same : A → A → Bool) (same-eq : (x y : A) → same x y ≡ true → x ≡ y)
    (same-self : (x : A) → same x x ≡ true) (next : A → List (A × Kind)) (accept : Found A → Bool)
    (dst : A) where
  -- Everything that is queued was seen.
  abbrev pub Queued : Seen A → List A → Type 0
  Queued seen q = All (λ y. has same seen y ≡ true) q

  abbrev pub Accepted : A → Option (Found A) → Type 0
  Accepted src none = Unit
  Accepted src (some f) = IsWalk next src dst f × (accept f ≡ true)

  -- A scan that ends has found a walk; otherwise what is seen is still a tree.
  abbrev pub Scans : A → Scanned A → Type 0
  Scans src (ends r) = (r ≢ none) × Accepted src r
  Scans src (going seen q) = Tree same same-eq same-self next src seen × Queued seen q

  Queued-seen :
      (seen : Seen A) (w : A) (h : Option (A × Kind)) (q : List A)
      → Queued seen q
      → Queued ((w, h) ∷ seen) q
  Queued-seen seen w h [] all = all
  Queued-seen seen w h (y ∷ q) all = (ground (arith, all.0), Queued-seen seen w h q all.1)

  pub scan-Scans :
      (src v : A) (es : List (A × Kind)) (seen : Seen A) (q : List A)
      → ((w : A) (k : Kind) → In (w, k) es → In (w, k) (next v))
      → Tree same same-eq same-self next src seen
      → has same seen v ≡ true
      → Queued seen q
      → Scans src (scan same next accept dst v es seen q)
  unfolding scan
  scan-Scans src v [] seen q sub t h all = (t, all)
  scan-Scans src v ((w, k) ∷ es) seen q sub t h all =
      let sub' : (u : A) (j : Kind) → In (u, j) es → In (u, j) (next v) =
        (λ u j i. sub u j (inr i)) in
      elim (Bool-cases (same w dst)) [
        | inl e ↦
            let at = same-eq w dst e in
            let (f, back, ok) =
              climb same same-eq same-self next src dst (hop_of same seen) seen (λ y _. refl) t v h
                (length seen) (omega arith) [] (k ∷ [])
                (subst (λ z. In (z, k) (next v)) at (sub w k (inl refl)), refl) ((λ i. i), tt)
                (λ y i. elim i [ ]) in
            elim (Bool-cases (accept f)) [
              | inl taken ↦ rw (e, back, taken) ((λ z. cc), (ok, taken))
              | inr left ↦ rw (e, back, left, e) (scan-Scans src v es seen q sub' t h all)
            ]
        | inr e ↦ elim (Bool-cases (has same seen w)) [
          | inl old ↦ rw (e, old) (scan-Scans src v es seen q sub' t h all)
          | inr new ↦
              rw (e, new)
                (scan-Scans src v es ((w, some (v, k)) ∷ seen) (q ++ w ∷ []) sub'
                  (sub w k (inl refl), h, new, t) (ground (arith, h))
                  (All-append (λ y. has same ((w, some (v, k)) ∷ seen) y ≡ true) q (w ∷ [])
                    (Queued-seen seen w (some (v, k)) q all) (rw (same-self w) refl, tt)))
        ]
      ]

  pub loop-Accepted :
      (src : A) (fuel : ℕ) (seen : Seen A) (q : List A)
      → Tree same same-eq same-self next src seen
      → Queued seen q
      → Accepted src (loop same next accept dst fuel seen q)
  unfolding loop
  loop-Accepted src fuel seen [] t all = tt
  loop-Accepted src zero seen (v ∷ q) t all = tt
  loop-Accepted src (suc fuel) seen (v ∷ q) t all =
      go (scan same next accept dst v (next v) seen q)
        (scan-Scans src v (next v) seen q (λ w k i. i) t all.0 all.1)
        (λ seen' q' t' all'. loop-Accepted src fuel seen' q' t' all')
    where
      go :
          (r : Scanned A)
          → Scans src r
          → ((seen' : Seen A) (q' : List A)
              → Tree same same-eq same-self next src seen'
              → Queued seen' q'
              → Accepted src (loop same next accept dst fuel seen' q'))
          → Accepted src (elim r [
            | ends result ↦ result
            | going seen' q' ↦ loop same next accept dst fuel seen' q'
          ])
      go (ends r) s later = s.1
      go (going seen' q') s later = later seen' q' s.0 s.1
