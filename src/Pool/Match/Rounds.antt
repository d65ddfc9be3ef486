-- ===== src/Pool/Match/Rounds.antt =====
-- The rounds of matchSpecs, one search for each spec, and the nodes read off at the end.
use native.Mathlib.Decide.{ℕ_discrete}
use torx.Base.{
  ℕ, zero, suc, ◌+◌, ◌≤◌, ◌<◌, ◌≡◌, ◌⊎◌, inl, inr, refl, ◌∙◌, List, [], ◌∷◌, Option, none, some,
  true, false, length, get_elem?, get_elem?-lt, ◌==◌, arith, Option-cases,
}
use torx.Base.Sort.{count_if}
use torx.Spec.{NodeSpec}
use torx.Node.{Node}
use torx.Pool.Match.{Matching, fits, match_rounds, assigned_nodes}
use torx.Pool.Match.Search.{Fit, Consistent, Won, Behind}
use torx.Pool.Match.Outcome.{Lost, won, lost, augment_outcome, unseen, unseen-empty}
use torx.Pool.Match.Hall.{Assignment, lost_no_assignment}

abbrev pub cnt : ℕ → List ℕ → ℕ
cnt i = count_if (λ x. x == i)

module _ (specs : List NodeSpec) (candidates : List Node) where
  fits-lt : (i : ℕ) (node : Node) → fits specs i node ≡ true → i < length specs
  unfolding fits
  fits-lt i node e = elim (Option-cases (get_elem? specs i)) [
    | inl gone ↦ absurd (let shut : false ≡ true = rw (gone, fits) at e in cc)
    | inr (s, here) ↦ get_elem?-lt specs i here
  ]

  holder-lt :
      (st : Matching)
      → Consistent specs candidates st
      → (i j : ℕ) → st.spec_of_cand j ≡ some i
      → i < length specs
  holder-lt st c i j e = let (node, at, ok) = c.fit i j (c.back i j e) in fits-lt i node ok

  abbrev restart : Matching → Matching
  restart st = record st { seen = λ _. false }

  Won-Consistent :
      (s : ℕ) (st st' : Matching)
      → Consistent specs candidates st
      → st.cand_of_spec s ≡ none
      → Won specs candidates s (restart st) st'
      → Consistent specs candidates st'
  Won-Consistent s st st' c free w = record {
    back = λ i j e. elim (ℕ_discrete i s) [
      | yes p ↦ ground (arith, w.only j, w.placed, c.back s j)
      | no p ↦ w.others_back i j p e
    ];
    forth = λ i j e. elim (ℕ_discrete i s) [
      | yes p ↦ ground (arith, w.placed, w.held)
      | no p ↦ w.others_forth i j p e
    ];
    fit = λ i j e. elim (ℕ_discrete i s) [
      | yes p ↦ let at : j ≡ w.place = ground (arith, w.placed) in rw (p, at) w.fit_place
      | no p ↦ w.fit_others i j p e
    ];
  }

  -- What the rounds need of the specs still to be placed.
  pub record Ready (todo : List ℕ) (st : Matching) : Type 0 where
    pub consistent : Consistent specs candidates st
    pub once : (i : ℕ) → cnt i todo ≤ 1
    pub waiting : (i : ℕ) → 0 < cnt i todo → st.cand_of_spec i ≡ none
    pub valid : (i : ℕ) → 0 < cnt i todo → i < length specs

  Won-Ready :
      (s : ℕ) (todo : List ℕ) (st st' : Matching)
      → Ready (s ∷ todo) st
      → Won specs candidates s (restart st) st'
      → Ready todo st'
  Won-Ready s todo st st' r w = record {
    consistent = Won-Consistent s st st' r.consistent (r.waiting s (ground arith)) w;
    once = λ i. ground (arith, r.once i);
    waiting = λ i h.
        w.still i (λ e. ground (arith, r.once s))
          (λ j e. ground (arith, r.consistent.back i j, r.waiting i))
        ∙ r.waiting i (ground arith);
    valid = λ i h. r.valid i (ground arith);
  }

  Lost-Ready :
      (s : ℕ) (todo : List ℕ) (st st' : Matching)
      → Ready (s ∷ todo) st
      → Lost specs candidates s (restart st) st'
      → Ready todo st'
  Lost-Ready s todo st st' r l = record {
    consistent = record {
      back = λ i k e. rw l.same_cos (r.consistent.back i k (rw (← l.same_soc) e));
      forth = λ i k e. rw l.same_soc (r.consistent.forth i k (rw (← l.same_cos) e));
      fit = λ i k e. r.consistent.fit i k (rw (← l.same_cos) e);
    };
    once = λ i. ground (arith, r.once i);
    waiting = λ i h. rw l.same_cos (r.waiting i (ground arith));
    valid = λ i h. r.valid i (ground arith);
  }

  -- What the rounds return: every spec is matched if the count says so, and it says so if there is
  -- a full assignment.
  pub record Done (todo : List ℕ) (matched : ℕ) (st : Matching) (r : Option (ℕ × Matching))
      : Type 0 where
    pub total : ℕ
    pub final : Matching
    pub returns : r ≡ some (total, final)
    pub consistent : Consistent specs candidates final
    pub bounded : total ≤ matched + length todo
    pub placed :
        total ≡ matched + length todo
        → (i : ℕ) → (0 < cnt i todo) ⊎ ((j : ℕ) × (st.cand_of_spec i ≡ some j))
        → (k : ℕ) × (final.cand_of_spec i ≡ some k)
    pub complete : Assignment specs candidates → total ≡ matched + length todo

  pub rounds_done :
      (todo : List ℕ) (matched : ℕ) (st : Matching)
      → Ready todo st
      → Done todo matched st (match_rounds specs candidates todo matched st)
  unfolding match_rounds
  rounds_done [] matched st r = record {
    total = matched;
    final = st;
    returns = refl;
    consistent = r.consistent;
    bounded = omega arith;
    placed = λ e i h. elim h [ inl z ↦ absurd (omega arith) | inr q ↦ q ];
    complete = λ a. omega arith;
  }
  rounds_done (s ∷ todo) matched st r =
      elim (augment_outcome specs candidates (suc (length candidates)) s (restart st) c b fuel_ok) [
        | won st' e w ↦
            let d = rounds_done todo (suc matched) st' (Won-Ready s todo st st' r w) in
            record {
              total = d.total;
              final = d.final;
              returns = rw (e, match_rounds) d.returns;
              consistent = d.consistent;
              bounded = omega (arith, d.bounded);
              placed = λ q i h. d.placed (omega (arith, q)) i (settled st' w i h);
              complete = λ a. omega (arith, d.complete a);
            }
        | lost st' e l ↦
            let d = rounds_done todo matched st' (Lost-Ready s todo st st' r l) in
            record {
              total = d.total;
              final = d.final;
              returns = rw (e, match_rounds) d.returns;
              consistent = d.consistent;
              bounded = omega (arith, d.bounded);
              placed = λ q i h. absurd (omega (arith, d.bounded));
              complete = λ a. absurd (
                  lost_no_assignment specs candidates a s (restart st) st' c
                    (r.waiting s (ground arith)) (r.valid s (ground arith))
                    (λ i j. holder-lt st r.consistent i j) (λ _. refl) l);
            }
      ]
    where
      c : Consistent specs candidates (restart st)
      c = record { back = r.consistent.back; forth = r.consistent.forth; fit = r.consistent.fit }

      b : Behind specs candidates s (restart st)
      b = λ j e. ground (arith, r.consistent.back s j, r.waiting s)

      fuel_ok : unseen (length candidates) (λ _. false) < suc (length candidates)
      fuel_ok = omega (arith, unseen-empty (length candidates))

      settled :
          (st' : Matching)
          → Won specs candidates s (restart st) st'
          → (i : ℕ) → (0 < cnt i (s ∷ todo)) ⊎ ((j : ℕ) × (st.cand_of_spec i ≡ some j))
          → (0 < cnt i todo) ⊎ ((j : ℕ) × (st'.cand_of_spec i ≡ some j))
      settled st' w i (inr (j, e)) = inr (w.keeps i j e)
      settled st' w i (inl z) = elim (ℕ_discrete i s) [
        | yes p ↦ inr (w.place, rw p w.placed)
        | no p ↦ inl (ground arith)
      ]

  assigned_step :
      (cos : ℕ → Option ℕ) (x j : ℕ) (is : List ℕ) (node : Node) (nodes : List Node)
      → cos x ≡ some j
      → get_elem? candidates j ≡ some node
      → assigned_nodes specs candidates cos is ≡ some nodes
      → assigned_nodes specs candidates cos (x ∷ is) ≡ some (node ∷ nodes)
  unfolding assigned_nodes
  assigned_step cos x j is node nodes at here e = rw (at, here, e, assigned_nodes)

  -- `candidates[candOfSpec[i]]` is in range once every spec is matched to a candidate.
  pub assigned_lem :
      (cos : ℕ → Option ℕ) (is : List ℕ)
      → ((i : ℕ) → 0 < cnt i is → (j : ℕ) × (cos i ≡ some j) × Fit specs candidates i j)
      → (nodes : List Node) × (assigned_nodes specs candidates cos is ≡ some nodes)
        × (length nodes ≡ length is)
        × ((t i : ℕ)
            → get_elem? is t ≡ some i
            → (j : ℕ) × (cos i ≡ some j) × (get_elem? nodes t ≡ get_elem? candidates j))
  unfolding assigned_nodes
  assigned_lem cos [] ok = ([], refl, refl, λ t i e. cc)
  assigned_lem cos (x ∷ is) ok =
      let (j, at, f) = ok x (ground arith) in
      let (node, here, _) = f in
      let (nodes, e, len, each) = assigned_lem cos is (λ i h. ok i (ground arith)) in
      (
        node ∷ nodes,
        assigned_step cos x j is node nodes at here e,
        omega (arith, len),
        all_of j node at here nodes each,
      )
    where
      all_of :
          (j : ℕ) (node : Node)
          → cos x ≡ some j
          → get_elem? candidates j ≡ some node
          → (nodes : List Node)
          → ((t i : ℕ)
              → get_elem? is t ≡ some i
              → (k : ℕ) × (cos i ≡ some k) × (get_elem? nodes t ≡ get_elem? candidates k))
          → (t i : ℕ) → get_elem? (x ∷ is) t ≡ some i
          → (k : ℕ) × (cos i ≡ some k) × (get_elem? (node ∷ nodes) t ≡ get_elem? candidates k)
      all_of j node at here nodes each zero i e = (j, ground arith, ground arith)
      all_of j node at here nodes each (suc t) i e = each t i e
