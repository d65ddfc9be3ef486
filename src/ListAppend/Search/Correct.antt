-- ===== src/ListAppend/Search/Correct.antt =====
-- listappend/listappend.go: the search as a whole, from its source.
use torx.Base.{
  ℕ, suc, ◌≡◌, refl, sym, subst, ◌≤◌, inl, List, [], ◌∷◌, none, some, Bool, true, not, length, In,
  arith,
}
use torx.Base.Sort.{count_if}
use torx.ListAppend.Search.{Kind, Found, has, search}
use torx.ListAppend.Search.Graph.{Walk, IsWalk}
use torx.ListAppend.Search.Loop.{Accepted, loop-Accepted}
use torx.ListAppend.Search.Complete.{unseen, loop_fuel, Closed, loop_no-Walk}

pub count-le : {A : Type 0} (p : A → Bool) (xs : List A) → count_if p xs ≤ length xs
count-le p [] = omega arith
count-le p (x ∷ xs) = ground (arith, count-le p xs)

module _ {A : Type 0} (same : A → A → Bool) (same-eq : (x y : A) → same x y ≡ true → x ≡ y)
    (same-self : (x : A) → same x x ≡ true) (next : A → List (A × Kind)) (accept : Found A → Bool)
    (dst : A) where
  pub search-Accepted :
      (fuel : ℕ) (src : A) (f : Found A)
      → search same next accept dst fuel src ≡ some f
      → IsWalk next src dst f × (accept f ≡ true)
  unfolding search
  search-Accepted fuel src f e = subst (Accepted same same-eq same-self next accept dst src) e (
      loop-Accepted same same-eq same-self next accept dst src fuel ((src, none) ∷ []) (src ∷ [])
        refl (rw (same-self src) refl, tt))

  start_left :
      (all : List A) (src : A)
      → suc (unseen same same-eq same-self next accept dst all ((src, none) ∷ []))
        ≤ suc (length all)
  start_left all src = omega (arith, count-le (λ u. not (has same ((src, none) ∷ []) u)) all)

  -- Fuel for every vertex and one more is enough.
  pub search_fuel :
      (all : List A)
      → ((v w : A) (k : Kind) → In (w, k) (next v) → In w all)
      → (much : ℕ) (src : A) → suc (length all) ≤ much
      → search same next accept dst much src ≡ search same next accept dst (suc (length all)) src
  unfolding search
  search_fuel all sub much src le =
      loop_fuel same same-eq same-self next accept dst all sub (suc (length all)) much
        ((src, none) ∷ []) (src ∷ []) (omega (arith, start_left all src)) le

  start-Closed :
      (src : A) → Closed same same-eq same-self next accept dst ((src, none) ∷ []) (src ∷ [])
  start-Closed src y h = inl (inl (sym (same-eq src y (ground (arith, h)))))

  pub search_no-Walk :
      ((f : Found A) → accept f ≡ true)
      → (all : List A) → ((v w : A) (k : Kind) → In (w, k) (next v) → In w all)
      → (src : A) → search same next accept dst (suc (length all)) src ≡ none
      → (vs : List A) (ks : List Kind) → Walk next src vs ks dst
      → ⊥
  unfolding search
  search_no-Walk always all sub src e vs ks w =
      loop_no-Walk same same-eq same-self next accept dst always all sub src (suc (length all))
        ((src, none) ∷ []) (src ∷ []) refl (rw (same-self src) refl, tt) (start-Closed src)
        (omega (arith, start_left all src)) e src (rw (same-self src) refl) vs ks w
