-- ===== src/Params/Points.antt =====
-- params.go: the points of a matrix, and that its expansion is all of them in order.
use native.Mathlib.Nat.{mul_assoc}
use torx.Base.{
  ℕ, suc, ◌+◌, ◌*◌, ◌≡◌, refl, sym, ap, subst, ◌∙◌, String, List, [], ◌∷◌, ◌++◌, map, some, true,
  false, length, length-append, All, All-append, arith, append_assoc, append-nil, get_elem?,
}
use torx.Params.{Json, Params, Dims, extend, expand}

-- The number of points of the product.
abbrev pub product : Dims → ℕ
product [] = 1
product ((_, values) ∷ dims) = length values * product dims

-- One value for each dimension, under its name.
abbrev pub IsPoint : Dims → Params → Type 0
IsPoint [] [] = Unit
IsPoint [] (_ ∷ _) = true ≡ false
IsPoint (_ ∷ _) [] = true ≡ false
IsPoint ((k, values) ∷ dims) ((k', v) ∷ p) =
    (k ≡ k') × ((i : ℕ) × (get_elem? values i ≡ some v)) × IsPoint dims p

length-map' : (f : Json → Params) (vs : List Json) → length (map f vs) ≡ length vs
length-map' f [] = refl
length-map' f (v ∷ vs) = ap suc (length-map' f vs)

length-extend :
    (k : String) (vs : List Json) (ps : List Params)
    → length (extend k vs ps) ≡ length ps * length vs
unfolding extend
length-extend k vs [] = omega arith
length-extend k vs (p ∷ ps) = ground (
  arith,
  length-append (map (λ v. p ++ (k, v) ∷ []) vs) (extend k vs ps),
  length-map' (λ v. p ++ (k, v) ∷ []) vs,
  length-extend k vs ps,
)

length-expand :
    (ps : List Params) (dims : Dims) → length (expand ps dims) ≡ length ps * product dims
unfolding expand
length-expand ps [] = omega arith
length-expand ps ((k, vs) ∷ dims) =
    length-expand (extend k vs ps) dims
    ∙ ap (λ n. n * product dims) (length-extend k vs ps)
    ∙ mul_assoc (length ps) (length vs) (product dims)

IsPoint-snoc :
    (k : String) (vs : List Json) (v : Json) (i : ℕ) (dims : Dims) (p : Params)
    → get_elem? vs i ≡ some v
    → IsPoint dims p
    → IsPoint (dims ++ (k, vs) ∷ []) (p ++ (k, v) ∷ [])
IsPoint-snoc k vs v i [] [] at h = (refl, (i, at), tt)
IsPoint-snoc k vs v i [] (_ ∷ _) at h = absurd (cc)
IsPoint-snoc k vs v i (_ ∷ _) [] at h = absurd (cc)
IsPoint-snoc k vs v i ((k', ws) ∷ dims) ((k'', w) ∷ p) at (same, found, rest) =
    (same, found, IsPoint-snoc k vs v i dims p at rest)

-- The values with one base each; `before` are the values already taken.
map-IsPoint :
    (k : String) (dims : Dims) (base : Params) (all : List Json) (n : ℕ) (vs : List Json)
    → ((i : ℕ) → get_elem? vs i ≡ get_elem? all (n + i))
    → IsPoint dims base
    → All (IsPoint (dims ++ (k, all) ∷ [])) (map (λ v. base ++ (k, v) ∷ []) vs)
map-IsPoint k dims base all n [] at h = tt
map-IsPoint k dims base all n (v ∷ vs) at h =
    let zero_on : n + 0 ≡ n = omega arith in
    let here : get_elem? all n ≡ some v = sym (rw zero_on at (at 0)) in
    (
      IsPoint-snoc k all v n dims base here h,
      map-IsPoint k dims base all (suc n) vs
          (λ i. let e : suc n + i ≡ n + suc i = omega arith in rw e (at (suc i))) h,
    )

extend-IsPoint :
    (k : String) (vs : List Json) (dims : Dims) (ps : List Params)
    → All (IsPoint dims) ps
    → All (IsPoint (dims ++ (k, vs) ∷ [])) (extend k vs ps)
unfolding extend
extend-IsPoint k vs dims [] h = tt
extend-IsPoint k vs dims (p ∷ ps) h =
    All-append (IsPoint (dims ++ (k, vs) ∷ [])) (map (λ v. p ++ (k, v) ∷ []) vs) (extend k vs ps)
      (map-IsPoint k dims p vs 0 vs (λ i. let e : 0 + i ≡ i = omega arith in rw e refl) h.0)
      (extend-IsPoint k vs dims ps h.1)

expand-IsPoint :
    (ps : List Params) (done dims : Dims)
    → All (IsPoint done) ps
    → All (IsPoint (done ++ dims)) (expand ps dims)
unfolding expand
expand-IsPoint ps done [] h = subst (λ d. All (IsPoint d) ps) (sym (append-nil done)) h
expand-IsPoint ps done ((k, vs) ∷ dims) h =
    subst (λ d. All (IsPoint d) (expand (extend k vs ps) dims))
      (append_assoc done ((k, vs) ∷ []) dims)
      (expand-IsPoint (extend k vs ps) (done ++ (k, vs) ∷ []) dims (extend-IsPoint k vs done ps h))

-- Each value of a dimension in front of each of the points of the others.
abbrev pub with_each : String → List Json → List Params → List Params
with_each k [] ps = []
with_each k (v ∷ vs) ps = map (λ p. (k, v) ∷ p) ps ++ with_each k vs ps

-- The points of the product in lexical order: the last dimension changes fastest.
abbrev pub points_of : Dims → List Params
points_of [] = [] ∷ []
points_of ((k, values) ∷ dims) = with_each k values (points_of dims)

-- Every point behind each of the sets so far.
abbrev behind : List Params → List Params → List Params
behind [] ps = []
behind (b ∷ bs) ps = map (λ p. b ++ p) ps ++ behind bs ps

behind-append : (cs bs ps : List Params) → behind (cs ++ bs) ps ≡ behind cs ps ++ behind bs ps
behind-append [] bs ps = refl
behind-append (a ∷ cs) bs ps =
    ap (λ l. map (λ p. a ++ p) ps ++ l) (behind-append cs bs ps)
    ∙ sym (append_assoc (map (λ p. a ++ p) ps) (behind cs ps) (behind bs ps))

map-snoc :
    (b : Params) (k : String) (v : Json) (ps : List Params)
    → map (λ p. (b ++ (k, v) ∷ []) ++ p) ps ≡ map (λ p. b ++ p) (map (λ p. (k, v) ∷ p) ps)
map-snoc b k v [] = refl
map-snoc b k v (p ∷ ps) =
    ap (λ l. l ∷ map (λ q. (b ++ (k, v) ∷ []) ++ q) ps) (append_assoc b ((k, v) ∷ []) p)
    ∙ ap (◌∷◌ (b ++ (k, v) ∷ p)) (map-snoc b k v ps)

map-append :
    (b : Params) (xs ys : List Params)
    → map (λ p. b ++ p) (xs ++ ys) ≡ map (λ p. b ++ p) xs ++ map (λ p. b ++ p) ys
map-append b [] ys = refl
map-append b (x ∷ xs) ys = ap (◌∷◌ (b ++ x)) (map-append b xs ys)

behind-map :
    (b : Params) (k : String) (vs : List Json) (ps : List Params)
    → behind (map (λ v. b ++ (k, v) ∷ []) vs) ps ≡ map (λ p. b ++ p) (with_each k vs ps)
behind-map b k [] ps = refl
behind-map b k (v ∷ vs) ps =
    ap (λ l. l ++ behind (map (λ v. b ++ (k, v) ∷ []) vs) ps) (map-snoc b k v ps)
    ∙ ap (λ l. map (λ p. b ++ p) (map (λ p. (k, v) ∷ p) ps) ++ l) (behind-map b k vs ps)
    ∙ sym (map-append b (map (λ p. (k, v) ∷ p) ps) (with_each k vs ps))

behind-extend :
    (k : String) (vs : List Json) (bs ps : List Params)
    → behind (extend k vs bs) ps ≡ behind bs (with_each k vs ps)
unfolding extend
behind-extend k vs [] ps = refl
behind-extend k vs (b ∷ bs) ps =
    behind-append (map (λ v. b ++ (k, v) ∷ []) vs) (extend k vs bs) ps
    ∙ ap (λ l. l ++ behind (extend k vs bs) ps) (behind-map b k vs ps)
    ∙ ap (◌++◌ (map (λ p. b ++ p) (with_each k vs ps))) (behind-extend k vs bs ps)

behind-nil : (bs : List Params) → behind bs ([] ∷ []) ≡ bs
behind-nil [] = refl
behind-nil (b ∷ bs) = ap (λ l. l ∷ behind bs ([] ∷ [])) (append-nil b) ∙ ap (◌∷◌ b) (behind-nil bs)

expand_lem : (bs : List Params) (dims : Dims) → expand bs dims ≡ behind bs (points_of dims)
unfolding expand
expand_lem bs [] = sym (behind-nil bs)
expand_lem bs ((k, vs) ∷ dims) =
    expand_lem (extend k vs bs) dims ∙ behind-extend k vs bs (points_of dims)

map-same : (ps : List Params) → map (λ p. [] ++ p) ps ++ [] ≡ ps
map-same [] = refl
map-same (p ∷ ps) = ap (◌∷◌ p) (map-same ps)

pub expand_points : (dims : Dims) → expand ([] ∷ []) dims ≡ points_of dims
expand_points dims = expand_lem ([] ∷ []) dims ∙ map-same (points_of dims)

pub length-points_of : (dims : Dims) → length (points_of dims) ≡ product dims
length-points_of dims =
    ap length (sym (expand_points dims)) ∙ length-expand ([] ∷ []) dims ∙ omega arith

pub points_of-IsPoint : (dims : Dims) → All (IsPoint dims) (points_of dims)
points_of-IsPoint dims =
    subst (All (IsPoint dims)) (expand_points dims) (expand-IsPoint ([] ∷ []) [] dims (tt, tt))

nil_of_length : (ps : List Params) → length ps ≡ 0 → ps ≡ []
nil_of_length [] e = refl
nil_of_length (p ∷ ps) e = absurd (omega arith)

pub no_points : (dims : Dims) → product dims ≡ 0 → points_of dims ≡ []
no_points dims e = nil_of_length (points_of dims) (length-points_of dims ∙ e)
