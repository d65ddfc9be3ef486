-- ===== src/Pool/Match/Hall.antt =====
-- pool.go, augmentSpec: a search that loses from a consistent matching rules out every full assignment: what it has seen
-- is too few candidates for the specs that could only go there.
use mathlib.Core.Option.{some-injective}
use torx.Base.{
  ℕ, zero, suc, ◌≤◌, ◌<◌, ◌≡◌, ◌≢◌, inl, inr, refl, sym, ap, ◌∙◌, List, Option, none, some, true,
  false, length, get_elem?-lt, if◌then◌else◌, ◌==◌, arith, subst,
}
use torx.Spec.{NodeSpec}
use torx.Node.{Node}
use torx.Pool.Match.{Matching}
use torx.Pool.Match.Search.{Fit, Consistent}
use torx.Pool.Match.Outcome.{Lost}

-- n + 1 numbers below n are not all different.
pub pigeonhole :
    (n : ℕ) (f : ℕ → ℕ)
    → ((i : ℕ) → i ≤ n → f i < n)
    → ((i k : ℕ) → i ≤ n → k ≤ n → f i ≡ f k → i ≡ k)
    → ⊥
pigeonhole zero f below inj = omega (arith, below 0 (omega arith))
pigeonhole (suc n) f below inj = pigeonhole n squeeze squeeze_below squeeze_inj
  where
    squeeze : ℕ → ℕ
    squeeze i = if f i == n then f (suc n) else f i

    squeeze_below : (i : ℕ) → i ≤ n → squeeze i < n
    squeeze_below i h = ground (
      arith,
      below i (omega arith),
      below (suc n) (omega arith),
      inj i (suc n) (omega arith) (omega arith),
    )

    squeeze_inj : (i k : ℕ) → i ≤ n → k ≤ n → squeeze i ≡ squeeze k → i ≡ k
    squeeze_inj i k h h' = ground (
      arith,
      inj i k (omega arith) (omega arith),
      inj i (suc n) (omega arith) (omega arith),
      inj k (suc n) (omega arith) (omega arith),
    )

abbrev pub holder : Option ℕ → ℕ
holder none = 0
holder (some h) = h

pub holder_lem : (o : Option ℕ) (h : ℕ) → o ≡ some h → h ≡ holder o
holder_lem none h e = cc
holder_lem (some k) h e = ground arith

some-holder : (o : Option ℕ) (h : ℕ) → o ≡ some h → o ≡ some (holder o)
some-holder none h e = cc
some-holder (some k) h e = refl

module _ (specs : List NodeSpec) (candidates : List Node) where
  -- A distinct candidate for every spec, each satisfying it.
  pub record Assignment : Type 0 where
    pub place : ℕ → ℕ
    pub place_fits : (i : ℕ) → i < length specs → Fit specs candidates i (place i)
    pub distinct : (i k : ℕ) → i < length specs → k < length specs → place i ≡ place k → i ≡ k

  module _ (a : Assignment) (s : ℕ) (st st' : Matching) where
    -- From where `s` belongs to where the spec that holds that place belongs, and so on.
    orbit : ℕ → ℕ
    orbit zero = a.place s
    orbit (suc t) = a.place (holder (st.spec_of_cand (orbit t)))

    module _ (c : Consistent specs candidates st) (free : st.cand_of_spec s ≡ none)
        (valid : s < length specs)
        (holders : (i j : ℕ) → st.spec_of_cand j ≡ some i → i < length specs)
        (nothing_seen : (j : ℕ) → st.seen j ≡ false) (l : Lost specs candidates s st st') where
      held_of_seen :
          (j : ℕ)
          → st'.seen j ≡ true
          → (h : ℕ) × (st.spec_of_cand j ≡ some h)
            × ((k : ℕ) → Fit specs candidates h k → st'.seen k ≡ true)
      held_of_seen j e = elim (l.closed j e) [
        | inl old ↦ absurd (ground (arith, nothing_seen j))
        | inr q ↦ q
      ]

      orbit_seen : (t : ℕ) → st'.seen (orbit t) ≡ true
      unfolding orbit
      orbit_seen zero = l.all (a.place s) (a.place_fits s valid)
      orbit_seen (suc t) =
          let (h, e, all) = held_of_seen (orbit t) (orbit_seen t) in
          let here = holder_lem (st.spec_of_cand (orbit t)) h e in
          subst (λ x. st'.seen (a.place x) ≡ true) here
            (all (a.place h) (a.place_fits h (holders h (orbit t) e)))

      orbit_held : (t : ℕ) → st.spec_of_cand (orbit t) ≡ some (holder (st.spec_of_cand (orbit t)))
      orbit_held t =
          let (h, e, all) = held_of_seen (orbit t) (orbit_seen t) in
          some-holder (st.spec_of_cand (orbit t)) h e

      orbit_below : (t : ℕ) → orbit t < length candidates
      unfolding orbit
      orbit_below zero = get_elem?-lt candidates (a.place s) (a.place_fits s valid).1
      orbit_below (suc t) =
          let h = holder (st.spec_of_cand (orbit t)) in
          get_elem?-lt candidates (a.place h)
            (a.place_fits h (holders h (orbit t) (orbit_held t))).1

      start_once : (t : ℕ) → a.place s ≢ orbit (suc t)
      unfolding orbit
      start_once t e =
          let h = holder (st.spec_of_cand (orbit t)) in
          let same = a.distinct s h valid (holders h (orbit t) (orbit_held t)) e in
          let back = c.back h (orbit t) (orbit_held t) in ground arith

      orbit_inj : (t u : ℕ) → orbit t ≡ orbit u → t ≡ u
      unfolding orbit
      orbit_inj zero zero e = refl
      orbit_inj zero (suc u) e = absurd (start_once u e)
      orbit_inj (suc t) zero e = absurd (start_once t (sym e))
      orbit_inj (suc t) (suc u) e =
          let h = holder (st.spec_of_cand (orbit t)) in
          let g = holder (st.spec_of_cand (orbit u)) in
          let same : h ≡ g =
            a.distinct h g (holders h (orbit t) (orbit_held t)) (holders g (orbit u) (orbit_held u))
              e in
          let back_t = c.back h (orbit t) (orbit_held t) in
          let back_u = c.back g (orbit u) (orbit_held u) in
          let meet : orbit t ≡ orbit u =
            some-injective (orbit t) (orbit u) (sym back_t ∙ ap st.cand_of_spec same ∙ back_u) in
          ap suc (orbit_inj t u meet)

      pub lost_no_assignment : ⊥
      lost_no_assignment =
          pigeonhole (length candidates) orbit (λ t _. orbit_below t) (λ t u _ _. orbit_inj t u)
