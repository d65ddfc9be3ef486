-- ===== src/Pool/Match.antt =====
-- pool.go: matchSpecs and what it calls. The slices `specOfCand`, `candOfSpec` and `seen` are
-- functions of the index, -1 is `none`, and the recursion of augmentSpec takes fuel: `none` as a
-- result says that the fuel ran out.
pub mod Search
pub mod Outcome
pub mod Hall
pub mod Rounds
pub mod Correct
use mathlib.Core.Option
use torx.Base.{
  ℕ, zero, suc, ◌+◌, ◌≡◌, List, [], ◌∷◌, Option, none, some, Bool, true, false, not, ◌||◌, length,
  map, get_elem?, if◌then◌else◌, ◌==◌, ltb,
}
use torx.Base.Sort.{sort_stable}
use torx.Spec.{NodeSpec, Resources, satisfied_by}
use torx.Node.{Node}

abbrev pub update {ℓ} : {A : Type ℓ} → (ℕ → A) → ℕ → A → ℕ → A
update f k v i = if i == k then v else f i

pub record Matching : Type 0 where
  pub spec_of_cand : ℕ → Option ℕ
  pub cand_of_spec : ℕ → Option ℕ
  pub seen : ℕ → Bool

pub mark : ℕ → Matching → Matching
mark j st = record st { seen = update st.seen j true }

pub assign : ℕ → ℕ → Matching → Matching
assign j si st = record st {
  spec_of_cand = update st.spec_of_cand j (some si);
  cand_of_spec = update st.cand_of_spec si (some j);
}

abbrev set_score {ℓ} : {A : Type ℓ} → Option A → ℕ
set_score none = 0
set_score (some _) = 1

unfoldable pub spec_score : NodeSpec → ℕ
spec_score s = length s.required.labels + set_score s.required.cpus + set_score s.required.memory_mb

-- The indices from `i` on, one for each element.
pub indices {ℓ} : {A : Type ℓ} → ℕ → List A → List ℕ
indices i [] = []
indices i (x ∷ xs) = i ∷ indices (suc i) xs

module _ (specs : List NodeSpec) where
  pub score_at : ℕ → ℕ
  unfolding spec_score
  score_at i = elim (get_elem? specs i) [ none ↦ 0 | some s ↦ spec_score s ]

  unfoldable pub constraint_order : List ℕ
  unfolding score_at indices sort_stable
  constraint_order = sort_stable (λ a b. ltb (score_at b) (score_at a)) (indices 0 specs)

  -- `specs[si].SatisfiedBy(node.Resources())`
  unfoldable pub fits : ℕ → Node → Bool
  unfolding satisfied_by
  fits si node = elim (get_elem? specs si) [ none ↦ false | some s ↦ satisfied_by s node.resources ]

  -- The loop of augmentSpec from candidate `j` on; `move` is the recursive call.
  pub scan :
      (ℕ → Matching → Option (Bool × Matching))
      → ℕ
      → ℕ
      → List Node
      → Matching
      → Option (Bool × Matching)
  unfolding mark assign fits
  scan move si j [] st = some (false, st)
  scan move si j (node ∷ rest) st =
      let later = scan move si (suc j) rest in
      let marked = mark j st in
      if st.seen j || not (fits si node) then later st else elim (st.spec_of_cand j) [
        | none ↦ some (true, assign j si marked)
        | some holder ↦ elim (move holder marked) [
          | none ↦ none
          | some (moved, st') ↦ if moved then some (true, assign j si st') else later st'
        ]
      ]

  module _ (candidates : List Node) where
    pub augment_spec : ℕ → ℕ → Matching → Option (Bool × Matching)
    unfolding scan
    augment_spec zero si st = none
    augment_spec (suc fuel) si st = scan (augment_spec fuel) si 0 candidates st

    -- The loop over the ordered specs, each with a fresh `seen`, counting the matched ones.
    pub match_rounds : List ℕ → ℕ → Matching → Option (ℕ × Matching)
    unfolding augment_spec
    match_rounds [] matched st = some (matched, st)
    match_rounds (si ∷ order) matched st =
        elim (augment_spec (suc (length candidates)) si (record st { seen = λ _. false })) [
          | none ↦ none
          | some (ok, st') ↦ match_rounds order (if ok then suc matched else matched) st'
        ]

    -- `candidates[candOfSpec[i]]` for each spec; `none` is an index out of range.
    pub assigned_nodes : (ℕ → Option ℕ) → List ℕ → Option (List Node)
    assigned_nodes cand_of_spec [] = some []
    assigned_nodes cand_of_spec (i ∷ is) = elim (cand_of_spec i) [
      | none ↦ none
      | some j ↦ elim (get_elem? candidates j) [
        | none ↦ none
        | some node ↦ elim (assigned_nodes cand_of_spec is) [
          | none ↦ none
          | some nodes ↦ some (node ∷ nodes)
        ]
      ]
    ]

abbrev pub unmatched : Matching
unmatched = record { spec_of_cand = λ _. none; cand_of_spec = λ _. none; seen = λ _. false }

-- `none` is a fault: the fuel ran out, or an index was out of range.
unfoldable pub match_run : List Node → List NodeSpec → Option (Option (List Node))
unfolding match_rounds assigned_nodes constraint_order indices
match_run candidates specs =
    elim (match_rounds specs candidates (constraint_order specs) 0 unmatched) [
      | none ↦ none
      | some (matched, st) ↦
          if not (matched == length specs)
          then some none
          else Option.map some (assigned_nodes specs candidates st.cand_of_spec (indices 0 specs))
    ]

-- What matchSpecs returns: the nodes in spec order, or that there is no assignment.
unfoldable pub match_specs : List Node → List NodeSpec → Option (List Node)
match_specs candidates specs = elim (match_run candidates specs) [ none ↦ none | some r ↦ r ]
