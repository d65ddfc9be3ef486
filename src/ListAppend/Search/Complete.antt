-- ===== src/ListAppend/Search/Complete.antt =====
-- listappend/listappend.go: the fuel of the search, and what it is that the search does not miss.
use torx.Base.{
  ℕ, zero, suc, ◌+◌, ◌≡◌, refl, sym, subst, ap, ◌≤◌, ◌<◌, ◌⊎◌, inl, inr, List, [], ◌∷◌, ◌++◌,
  Option, none, some, Bool, true, false, not, length, length-append, In, In-left, In-right, arith,
  Bool-cases, Option-cases,
}
use torx.Base.Sort.{count_if}
use torx.ListAppend.Search.{
  Kind, Found, Seen, Scanned, ends, going, has, hop_of, walk_back, scan, loop,
}
use torx.ListAppend.Search.Graph.{Walk}
use torx.ListAppend.Search.Walks.{Tree}
use torx.ListAppend.Search.Loop.{Queued, Scans, scan-Scans}

module _ {A : Type 0} (same : A → A → Bool) (same-eq : (x y : A) → same x y ≡ true → x ≡ y)
    (same-self : (x : A) → same x x ≡ true) (next : A → List (A × Kind)) (accept : Found A → Bool)
    (dst : A) where
  -- How many of some vertices were not seen.
  abbrev pub unseen : List A → Seen A → ℕ
  unseen all seen = count_if (λ u. not (has same seen u)) all

  unseen-le :
      (all : List A) (seen : Seen A) (w : A) (h : Option (A × Kind))
      → unseen all ((w, h) ∷ seen) ≤ unseen all seen
  unseen-le [] seen w h = omega arith
  unseen-le (u ∷ all) seen w h = ground (arith, unseen-le all seen w h)

  unseen-lt :
      (all : List A) (seen : Seen A) (w : A) (h : Option (A × Kind))
      → In w all
      → has same seen w ≡ false
      → unseen all ((w, h) ∷ seen) < unseen all seen
  unseen-lt [] seen w h i new = elim i [ ]
  unseen-lt (u ∷ all) seen w h (inl e) new =
      let fresh : has same seen u ≡ false = subst (λ z. has same seen z ≡ false) e new in
      let self : same w u ≡ true = subst (λ z. same w z ≡ true) e (same-self w) in
      rw (fresh, self) (omega (arith, unseen-le all seen w h))
  unseen-lt (u ∷ all) seen w h (inr i) new = ground (arith, unseen-lt all seen w h i new)

  -- What is left for the loop, at most `n` rounds.
  abbrev pub Left : List A → ℕ → Scanned A → Type 0
  Left all n (ends r) = Unit {0}
  Left all n (going seen q) = length q + unseen all seen ≤ n

  scan-Left :
      (all : List A) (v : A) (es : List (A × Kind)) (seen : Seen A) (q : List A) (n : ℕ)
      → ((w : A) (k : Kind) → In (w, k) es → In w all)
      → length q + unseen all seen ≤ n
      → Left all n (scan same next accept dst v es seen q)
  unfolding scan
  scan-Left all v [] seen q n sub le = le
  scan-Left all v ((w, k) ∷ es) seen q n sub le =
      let sub' : (u : A) (j : Kind) → In (u, j) es → In u all = (λ u j i. sub u j (inr i)) in
      let fewer : has same seen w ≡ false
          → length (q ++ w ∷ []) + unseen all ((w, some (v, k)) ∷ seen) ≤ n =
        (λ new. omega (
          arith,
          length-append q (w ∷ []),
          unseen-lt all seen w (some (v, k)) (sub w k (inl refl)) new,
        )) in
      elim (Bool-cases (same w dst)) [
        | inl e ↦ elim (Option-cases (walk_back (length seen) (hop_of same seen) v [] (k ∷ []))) [
          | inl lost ↦ rw (e, lost) tt
          | inr (f, back) ↦ elim (Bool-cases (accept f)) [
            | inl taken ↦ rw (e, back, taken) tt
            | inr left ↦ rw (e, back, left, e) (scan-Left all v es seen q n sub' le)
          ]
        ]
        | inr e ↦ elim (Bool-cases (has same seen w)) [
          | inl old ↦ rw (e, old) (scan-Left all v es seen q n sub' le)
          | inr new ↦
              rw (e, new)
                (scan-Left all v es ((w, some (v, k)) ∷ seen) (q ++ w ∷ []) n sub' (fewer new))
        ]
      ]

  -- Fuel for the queued and the unseen vertices is enough: any more changes nothing.
  pub loop_fuel :
      (all : List A)
      → ((v w : A) (k : Kind) → In (w, k) (next v) → In w all)
      → (fuel much : ℕ) (seen : Seen A) (q : List A) → length q + unseen all seen ≤ fuel
      → fuel ≤ much
      → loop same next accept dst much seen q ≡ loop same next accept dst fuel seen q
  unfolding loop
  loop_fuel all sub fuel much seen [] le more = refl
  loop_fuel all sub zero much seen (v ∷ q) le more = ground arith
  loop_fuel all sub (suc fuel) zero seen (v ∷ q) le more = ground arith
  loop_fuel all sub (suc fuel) (suc much) seen (v ∷ q) le more =
      go (scan same next accept dst v (next v) seen q)
        (scan-Left all v (next v) seen q fuel (sub v) (omega arith))
        (λ seen' q' le'. loop_fuel all sub fuel much seen' q' le' (omega arith))
    where
      go :
          (r : Scanned A)
          → Left all fuel r
          → ((seen' : Seen A) (q' : List A)
              → length q' + unseen all seen' ≤ fuel
              → loop same next accept dst much seen' q' ≡ loop same next accept dst fuel seen' q')
          → (elim r [
            | ends result ↦ result
            | going seen' q' ↦ loop same next accept dst much seen' q'
          ])
            ≡ (elim r [
              | ends result ↦ result
              | going seen' q' ↦ loop same next accept dst fuel seen' q'
            ])
      go (ends r) s later = refl
      go (going seen' q') s later = later seen' q' s

  -- Every edge of a vertex leads to one that was seen, and not to the destination.
  abbrev pub Done : Seen A → List (A × Kind) → Type 0
  Done seen es = (w : A) (k : Kind) → In (w, k) es → (same w dst ≡ false) × (has same seen w ≡ true)

  abbrev pub Closed : Seen A → List A → Type 0
  Closed seen q = (y : A) → has same seen y ≡ true → In y q ⊎ Done seen (next y)

  has-more :
      (seen : Seen A) (w y : A) (h : Option (A × Kind))
      → has same seen y ≡ true
      → has same ((w, h) ∷ seen) y ≡ true
  has-more seen w y h e = ground (arith, e)

  Done-more :
      (seen : Seen A) (w : A) (h : Option (A × Kind)) (es : List (A × Kind))
      → Done seen es
      → Done ((w, h) ∷ seen) es
  Done-more seen w h es d u k i = ((d u k i).0, has-more seen w u h (d u k i).1)

  -- A scan of these edges that goes on has closed their vertex.
  abbrev Closes : A → List (A × Kind) → Seen A → Scanned A → Type 0
  Closes v es seen₀ (ends r) = Unit {0}
  Closes v es seen₀ (going seen q) =
      ((y : A) → has same seen y ≡ true → In y (v ∷ q) ⊎ Done seen (next y))
      × Done seen es
      × ((y : A) → has same seen₀ y ≡ true → has same seen y ≡ true)

  Closed-more :
      (v w : A) (k : Kind) (seen : Seen A) (q : List A)
      → ((y : A) → has same seen y ≡ true → In y (v ∷ q) ⊎ Done seen (next y))
      → (y : A) → has same ((w, some (v, k)) ∷ seen) y ≡ true
      → In y (v ∷ q ++ w ∷ []) ⊎ Done ((w, some (v, k)) ∷ seen) (next y)
  Closed-more v w k seen q c y h = elim (Bool-cases (same w y)) [
    | inl e ↦ inl (inr (In-right y q (w ∷ []) (inl (sym (same-eq w y e)))))
    | inr e ↦ elim (c y (ground (arith, h))) [
      | inl (inl at) ↦ inl (inl at)
      | inl (inr i) ↦ inl (inr (In-left y q (w ∷ []) i))
      | inr d ↦ inr (Done-more seen w (some (v, k)) (next y) d)
    ]
  ]

  Closes-edge :
      (v w : A) (k : Kind) (es : List (A × Kind)) (old seen : Seen A) (r : Scanned A)
      → same w dst ≡ false
      → has same seen w ≡ true
      → ((y : A) → has same old y ≡ true → has same seen y ≡ true)
      → Closes v es seen r
      → Closes v ((w, k) ∷ es) old r
  Closes-edge v w k es old seen (ends r) e h more c = tt
  Closes-edge v w k es old seen (going seen' q') e h more c = (c.0, edges, λ y i. c.2 y (more y i))
    where
      edges : Done seen' ((w, k) ∷ es)
      edges u j (inl at) =
          let p : w ≡ u = ap (λ z. z.0) (sym at) in
          (subst (λ z. same z dst ≡ false) p e, subst (λ z. has same seen' z ≡ true) p (c.2 w h))
      edges u j (inr i) = c.1 u j i

  module _ (always : (f : Found A) → accept f ≡ true) where
    scan-Closes :
        (v : A) (es : List (A × Kind)) (seen : Seen A) (q : List A)
        → ((y : A) → has same seen y ≡ true → In y (v ∷ q) ⊎ Done seen (next y))
        → Closes v es seen (scan same next accept dst v es seen q)
    unfolding scan
    scan-Closes v [] seen q c = (c, (λ w k i. elim i [ ]), λ y h. h)
    scan-Closes v ((w, k) ∷ es) seen q c = elim (Bool-cases (same w dst)) [
      | inl e ↦ elim (Option-cases (walk_back (length seen) (hop_of same seen) v [] (k ∷ []))) [
        | inl lost ↦ rw (e, lost) tt
        | inr (f, back) ↦ rw (e, back, always f) tt
      ]
      | inr e ↦ elim (Bool-cases (has same seen w)) [
        | inl old ↦
            rw (e, old)
              (Closes-edge v w k es seen seen (scan same next accept dst v es seen q) e old
                (λ y h. h) (scan-Closes v es seen q c))
        | inr new ↦
            rw (e, new)
              (Closes-edge v w k es seen ((w, some (v, k)) ∷ seen)
                (scan same next accept dst v es ((w, some (v, k)) ∷ seen) (q ++ w ∷ [])) e
                (rw (same-self w) refl) (λ y h. has-more seen w y (some (v, k)) h)
                (scan-Closes v es ((w, some (v, k)) ∷ seen) (q ++ w ∷ [])
                  (Closed-more v w k seen q c)))
      ]
    ]

    Closed-no-Walk :
        (seen : Seen A)
        → Closed seen []
        → (x : A) → has same seen x ≡ true
        → (vs : List A) (ks : List Kind) → Walk next x vs ks dst
        → ⊥
    Closed-no-Walk seen c x h vs [] w = w
    Closed-no-Walk seen c x h [] (k ∷ ks) w = elim (c x h) [
      | inl i ↦ i
      | inr d ↦ let (away, _) = d dst k w.0 in let here = same-self dst in cc
    ]
    Closed-no-Walk seen c x h (u ∷ vs) (k ∷ ks) w = elim (c x h) [
      | inl i ↦ elim i [ ]
      | inr d ↦ let (_, on) = d u k w.0 in Closed-no-Walk seen c u on vs ks w.1
    ]

    pub loop_no-Walk :
        (all : List A)
        → ((v w : A) (k : Kind) → In (w, k) (next v) → In w all)
        → (src : A) (fuel : ℕ) (seen : Seen A) (q : List A)
        → Tree same same-eq same-self next src seen
        → Queued same same-eq same-self next accept dst seen q
        → Closed seen q
        → length q + unseen all seen ≤ fuel
        → loop same next accept dst fuel seen q ≡ none
        → (x : A) → has same seen x ≡ true
        → (vs : List A) (ks : List Kind) → Walk next x vs ks dst
        → ⊥
    unfolding loop
    loop_no-Walk all sub src fuel seen [] t a c le miss x h vs ks w =
        Closed-no-Walk seen c x h vs ks w
    loop_no-Walk all sub src zero seen (v ∷ q) t a c le miss x h vs ks w = ground arith
    loop_no-Walk all sub src (suc fuel) seen (v ∷ q) t a c le miss x h vs ks w =
        go (scan same next accept dst v (next v) seen q)
          (scan-Scans same same-eq same-self next accept dst src v (next v) seen q (λ u j i. i) t
            a.0 a.1)
          (scan-Closes v (next v) seen q c)
          (scan-Left all v (next v) seen q fuel (sub v) (omega arith)) miss
          (λ seen' q' t' a' c' le' no' h'.
            loop_no-Walk all sub src fuel seen' q' t' a' c' le' no' x h' vs ks w)
      where
        go :
            (r : Scanned A)
            → Scans same same-eq same-self next accept dst src r
            → Closes v (next v) seen r
            → Left all fuel r
            → (elim r [
              | ends result ↦ result
              | going seen' q' ↦ loop same next accept dst fuel seen' q'
            ])
              ≡ none
            → ((seen' : Seen A) (q' : List A)
                → Tree same same-eq same-self next src seen'
                → Queued same same-eq same-self next accept dst seen' q'
                → Closed seen' q'
                → length q' + unseen all seen' ≤ fuel
                → loop same next accept dst fuel seen' q' ≡ none
                → has same seen' x ≡ true
                → ⊥)
            → ⊥
        go (ends result) s c' le' no' later = s.0 no'
        go (going seen' q') s c' le' no' later = later seen' q' s.0 s.1 closed le' no' (c'.2 x h)
          where
            closed : Closed seen' q'
            closed y i = elim (c'.0 y i) [
              | inl (inl at) ↦ inr (subst (λ z. Done seen' (next z)) (sym at) c'.1)
              | inl (inr j) ↦ inl j
              | inr d ↦ inr d
            ]
