-- ===== src/Pool/Match/Correct.antt =====
-- pool.go: the answer of matchSpecs against the assignments of candidates to specs.
use mathlib.Core.Option.{some-injective}
use torx.Base.{
  ℕ, zero, suc, ◌+◌, ◌<◌, ◌≡◌, inl, inr, refl, sym, ap, ◌∙◌, List, [], ◌∷◌, Option, none, some,
  true, length, get_elem?, if◌then◌else◌, ◌==◌, leb, ltb, ◌&&◌, arith, subst, Bool-cases, ==_iff,
}
use torx.Base.Sort.{count_if, count-sort_stable}
use torx.Spec.{NodeSpec}
use torx.Node.{Node}
use torx.Pool.Match.{
  match_rounds, assigned_nodes, constraint_order, indices, match_run, match_specs, unmatched,
}
use torx.Pool.Match.Search.{Fit}
use torx.Pool.Match.Rounds.{cnt, Ready, Done, rounds_done, assigned_lem}
use torx.Pool.Match.Hall.{Assignment, holder, holder_lem}

cnt-indices :
    (i j : ℕ) (xs : List NodeSpec)
    → cnt i (indices j xs) ≡ (if leb j i && ltb i (j + length xs) then 1 else 0)
unfolding indices
cnt-indices i j [] = ground arith
cnt-indices i j (x ∷ xs) = ground (arith, cnt-indices i (suc j) xs)

get_elem?-indices :
    (j t : ℕ) (xs : List NodeSpec) → t < length xs → get_elem? (indices j xs) t ≡ some (j + t)
unfolding indices
get_elem?-indices j t [] h = elim h [ ]
get_elem?-indices j zero (x ∷ xs) h = ground arith
get_elem?-indices j (suc t) (x ∷ xs) h = ground (arith, get_elem?-indices (suc j) t xs)

length-indices : (j : ℕ) (xs : List NodeSpec) → length (indices j xs) ≡ length xs
unfolding indices
length-indices j [] = refl
length-indices j (x ∷ xs) = ap suc (length-indices (suc j) xs)

count-all : (xs : List ℕ) → count_if (λ _. true) xs ≡ length xs
count-all [] = refl
count-all (x ∷ xs) = omega (arith, count-all xs)

module _ (specs : List NodeSpec) where
  cnt-order : (i : ℕ) → cnt i (constraint_order specs) ≡ (if ltb i (length specs) then 1 else 0)
  unfolding constraint_order
  cnt-order i =
      count-sort_stable _ (λ x. x == i) (indices 0 specs) ∙ cnt-indices i 0 specs ∙ (ground arith)

  length-order : length (constraint_order specs) ≡ length specs
  unfolding constraint_order
  length-order =
      sym (count-all (constraint_order specs))
      ∙ count-sort_stable _ (λ _. true) (indices 0 specs)
      ∙ count-all (indices 0 specs)
      ∙ length-indices 0 specs

  module _ (candidates : List Node) where
    start_Ready : Ready specs candidates (constraint_order specs) unmatched
    start_Ready = record {
      consistent = record { back = λ i j e. cc; forth = λ i j e. cc; fit = λ i j e. absurd (cc) };
      once = λ i. ground (arith, cnt-order i);
      waiting = λ i h. refl;
      valid = λ i h. ground (arith, cnt-order i);
    }

    run_done :
        Done specs candidates
          (constraint_order specs)
          0
          unmatched
          (match_rounds specs candidates (constraint_order specs) 0 unmatched)
    run_done = rounds_done specs candidates (constraint_order specs) 0 unmatched start_Ready

    -- matchSpecs never faults; a full result is a distinct, satisfying candidate for each spec in
    -- spec order; and there is a full result whenever such an assignment exists.
    record Decides (r : Option (Option (List Node))) : Type 0 where
      answer : Option (List Node)
      returns : r ≡ some answer
      sound :
          (nodes : List Node)
          → answer ≡ some nodes
          → (length nodes ≡ length specs)
            × ((a : Assignment specs candidates) × ((i : ℕ)
                  → i < length specs
                  → get_elem? nodes i ≡ get_elem? candidates (a.place i)))
      complete : Assignment specs candidates → (nodes : List Node) × (answer ≡ some nodes)

    placed_all :
        (i : ℕ)
        → run_done.total ≡ length specs
        → i < length specs
        → (j : ℕ) × (run_done.final.cand_of_spec i ≡ some j) × Fit specs candidates i j
    placed_all i all h =
        let (k, e) =
          run_done.placed (omega (arith, length-order)) i (inl (ground (arith, cnt-order i))) in
        (k, e, run_done.consistent.fit i k e)

    abbrev place_of : ℕ → ℕ
    place_of i = holder (run_done.final.cand_of_spec i)

    place_of_lem : (i j : ℕ) → run_done.final.cand_of_spec i ≡ some j → j ≡ place_of i
    place_of_lem i j e = holder_lem (run_done.final.cand_of_spec i) j e

    assignment : run_done.total ≡ length specs → Assignment specs candidates
    assignment all = record {
      place = place_of;
      place_fits = λ i h.
          let (j, e, f) = placed_all i all h in
          subst (Fit specs candidates i) (place_of_lem i j e) f;
      distinct = λ i k hi hk same.
          let (j, e, _) = placed_all i all hi in
          let (m, g, _) = placed_all k all hk in
          let meet : j ≡ m = place_of_lem i j e ∙ same ∙ sym (place_of_lem k m g) in
          some-injective i k (
            sym (run_done.consistent.forth i j e)
            ∙ ap run_done.final.spec_of_cand meet
            ∙ run_done.consistent.forth k m g);
    }

    all_assigned :
        (all : run_done.total ≡ length specs)
        → (nodes : List Node) × (assigned_nodes specs candidates run_done.final.cand_of_spec
              (indices 0 specs)
            ≡ some nodes)
          × (length nodes ≡ length specs)
          × ((i : ℕ) → i < length specs → get_elem? nodes i ≡ get_elem? candidates (place_of i))
    all_assigned all =
        let (nodes, e, len, each) =
          assigned_lem specs candidates run_done.final.cand_of_spec (indices 0 specs)
            (λ i h. placed_all i all (ground (arith, cnt-indices i 0 specs))) in
        (
          nodes,
          e,
          len ∙ length-indices 0 specs,
          λ i h.
              let at : get_elem? (indices 0 specs) i ≡ some i =
                ground (arith, get_elem?-indices 0 i specs) in
              let (j, at_i, same) = each i i at in
              same ∙ ap (get_elem? candidates) (place_of_lem i j at_i),
        )

    decide_match : Decides (match_run candidates specs)
    unfolding match_run assignment run_done
    decide_match = elim (Bool-cases (run_done.total == length specs)) [
      | inl full ↦
          let all = (==_iff run_done.total (length specs)).0 full in
          let (nodes, e, len, each) = all_assigned all in
          record {
            answer = some nodes;
            returns = rw (run_done.returns, full, e, match_run);
            sound = λ ns q.
                let same = some-injective nodes ns q in
                (
                  ap length (sym same) ∙ len,
                  (
                    assignment all,
                    λ i h. ap (λ (l : List Node). get_elem? l i) (sym same) ∙ each i h,
                  ),
                );
            complete = λ a. (nodes, refl);
          }
      | inr short ↦ record {
        answer = none;
        returns = rw (run_done.returns, short, match_run);
        sound = λ ns q. absurd (cc);
        complete = λ a. absurd (let all = run_done.complete a in ground (arith, length-order));
      }
    ]

    -- matchSpecs always ends, within its fuel and with every index in range.
    pub match_run-total : (answer : Option (List Node)) × (match_run candidates specs ≡ some answer)
    match_run-total = (decide_match.answer, decide_match.returns)

    -- If matchSpecs returns nodes, there is one for each spec, in spec order: they are the
    -- candidates at distinct places, each of which satisfies its spec.
    pub match_specs_sound :
        (nodes : List Node)
        → match_specs candidates specs ≡ some nodes
        → (length nodes ≡ length specs)
          × ((a : Assignment specs candidates) × ((i : ℕ)
                → i < length specs
                → get_elem? nodes i ≡ get_elem? candidates (a.place i)))
    unfolding match_specs
    match_specs_sound nodes e =
        decide_match.sound nodes (rw (decide_match.returns, match_specs) at e)

    -- Whenever some assignment of distinct satisfying candidates to the specs exists, matchSpecs
    -- returns nodes: it never rejects a feasible request.
    pub match_specs_complete :
        Assignment specs candidates
        → (nodes : List Node) × (match_specs candidates specs ≡ some nodes)
    unfolding match_specs
    match_specs_complete a =
        let (nodes, e) = decide_match.complete a in
        (nodes, rw (decide_match.returns, match_specs) e)
