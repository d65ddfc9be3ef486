-- ===== src/Pool/Match/Search.antt =====
-- One search of augmentSpec: what it leaves behind when it wins and when it loses.
use native.Mathlib.Decide.{ℕ_discrete}
use torx.Base.{ℕ, ◌≡◌, ◌≢◌, ◌⊎◌, sym, ◌∙◌, List, none, some, true, false, get_elem?, arith}
use torx.Spec.{NodeSpec}
use torx.Node.{Node}
use torx.Pool.Match.{Matching, mark, assign, fits}

module _ (specs : List NodeSpec) (candidates : List Node) where
  -- Candidate `j` satisfies spec `i`.
  abbrev pub Fit : ℕ → ℕ → Type 0
  Fit i j = (node : Node) × (get_elem? candidates j ≡ some node) × (fits specs i node ≡ true)

  -- The two arrays are inverse to each other, and every match fits.
  pub record Consistent (st : Matching) : Type 0 where
    pub back : (i j : ℕ) → st.spec_of_cand j ≡ some i → st.cand_of_spec i ≡ some j
    pub forth : (i j : ℕ) → st.cand_of_spec i ≡ some j → st.spec_of_cand j ≡ some i
    pub fit : (i j : ℕ) → st.cand_of_spec i ≡ some j → Fit i j

  -- A search for spec `s` that ends in true.
  pub record Won (s : ℕ) (st st' : Matching) : Type 0 where
    pub place : ℕ
    pub placed : st'.cand_of_spec s ≡ some place
    pub held : st'.spec_of_cand place ≡ some s
    pub fresh : st.seen place ≡ false
    pub fit_place : Fit s place
    pub others_back : (i j : ℕ) → i ≢ s → st'.spec_of_cand j ≡ some i → st'.cand_of_spec i ≡ some j
    pub others_forth : (i j : ℕ) → i ≢ s → st'.cand_of_spec i ≡ some j → st'.spec_of_cand j ≡ some i
    pub only : (j : ℕ) → st'.spec_of_cand j ≡ some s → (j ≡ place) ⊎ (st.spec_of_cand j ≡ some s)
    pub frame : (j : ℕ) → st.seen j ≡ true → st'.spec_of_cand j ≡ st.spec_of_cand j
    pub still :
        (i : ℕ)
        → i ≢ s
        → ((j : ℕ) → st.spec_of_cand j ≡ some i → st.seen j ≡ true)
        → st'.cand_of_spec i ≡ st.cand_of_spec i
    pub keeps : (i j : ℕ) → st.cand_of_spec i ≡ some j → (k : ℕ) × (st'.cand_of_spec i ≡ some k)
    pub fit_others : (i j : ℕ) → i ≢ s → st'.cand_of_spec i ≡ some j → Fit i j

  -- The places that spec `s` holds are behind the search.
  abbrev pub Behind : ℕ → Matching → Type 0
  Behind s st = (j : ℕ) → st.spec_of_cand j ≡ some s → st.seen j ≡ true

  pub Won-free :
      (s j : ℕ) (st : Matching)
      → Consistent st
      → st.seen j ≡ false
      → st.spec_of_cand j ≡ none
      → Fit s j
      → Won s st (assign j s (mark j st))
  unfolding assign mark
  Won-free s j st c new free f = record {
    place = j;
    placed = ground arith;
    held = ground arith;
    fresh = new;
    fit_place = f;
    others_back = λ i k ne e. ground (arith, c.back i k);
    others_forth = λ i k ne e. ground (arith, c.forth i k);
    only = λ k e. ground arith;
    frame = λ k e. ground arith;
    still = λ i ne e. ground arith;
    keeps = λ i k e. elim (ℕ_discrete i s) [ yes p ↦ (j, ground arith) | no p ↦ (k, ground arith) ];
    fit_others = λ i k ne e. c.fit i k (ground arith);
  }

  module _ (s j h : ℕ) (st st2 : Matching) (c : Consistent st) (b : Behind s st) where
    -- The spec that holds `j` is another one, and keeps `j` while it looks for a place.
    pub holder_ne : st.seen j ≡ false → st.spec_of_cand j ≡ some h → h ≢ s
    holder_ne new taken e = ground (arith, b j)

    holder_keeps : st.spec_of_cand j ≡ some h → Won h (mark j st) st2 → st2.spec_of_cand j ≡ some h
    unfolding mark
    holder_keeps taken w = w.frame j (ground arith) ∙ taken

    searcher_still :
        st.seen j ≡ false
        → st.spec_of_cand j ≡ some h
        → Won h (mark j st) st2
        → st2.cand_of_spec s ≡ st.cand_of_spec s
    unfolding mark
    searcher_still new taken w =
        w.still s (λ e. holder_ne new taken (sym e)) (λ k e. ground (arith, b k e))

    pub Won-move :
        st.seen j ≡ false
        → st.spec_of_cand j ≡ some h
        → Fit s j
        → Won h (mark j st) st2
        → Won s st (assign j s st2)
    unfolding assign mark
    Won-move new taken f w =
        let ne = holder_ne new taken in
        let at_j = holder_keeps taken w in
        let at_s = searcher_still new taken w in
        record {
          place = j;
          placed = ground arith;
          held = ground arith;
          fresh = new;
          fit_place = f;
          others_back = λ i k d e.
              ground (arith, w.others_back i k, w.only k, w.placed, c.back h k, c.back h j);
          others_forth =
              λ i k d e. ground (arith, w.others_forth i k, w.placed, w.held, w.fresh, at_j);
          only = λ k e. ground (arith, w.others_back s k, c.forth s k, at_s, ne);
          frame = λ k e. ground (arith, w.frame k);
          still = λ i d behind. let moved = w.still i in ground (arith, moved, behind j);
          keeps = λ i k e. elim (ℕ_discrete i s) [
            | yes p ↦ (j, ground arith)
            | no p ↦ let (k', e') = w.keeps i k e in (k', ground arith)
          ];
          fit_others = λ i k d e. elim (ℕ_discrete i h) [
            | yes p ↦ let at_place : k ≡ w.place = ground arith in rw (p, at_place) w.fit_place
            | no p ↦ w.fit_others i k p (ground arith)
          ];
        }
