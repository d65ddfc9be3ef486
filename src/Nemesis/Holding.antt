-- ===== src/Nemesis/Holding.antt =====
-- nemesis/nemesis.go: what Holds counts, over any sequence of holds and releases.
use torx.Base.{
  ℕ, zero, suc, ◌+◌, ◌-◌, ◌≡◌, refl, ap, String, List, [], ◌∷◌, ◌++◌, Option, none, some, Bool,
  true, false, get_elem?, set, if◌then◌else◌, ltb, str_eq, arith, Bool-cases, Option-cases, inl,
  inr,
}
use torx.Nemesis.{Holds, adjust, hold, release, held}

-- How often a target is named.
abbrev pub named : String → List String → ℕ
named u [] = 0
named u (t ∷ ts) = (if str_eq t u then 1 else 0) + named u ts

hold-named : (ts : List String) (h : Holds) (u : String) → hold ts h u ≡ h u + named u ts
unfolding hold
hold-named [] h u = omega arith
hold-named (t ∷ ts) h u = ground (arith, hold-named ts (adjust suc t h) u)

release-named : (ts : List String) (h : Holds) (u : String) → release ts h u ≡ h u - named u ts
unfolding release
release-named [] h u = omega arith
release-named (t ∷ ts) h u = ground (arith, release-named ts (adjust (λ n. n - 1) t h) u)

-- What `Hold` returned: its targets, and whether its `sync.Once` is used up.
pub record Token : Type 0 where
  pub targets : List String
  pub once : Bool

pub record Session : Type 0 where
  pub holds : Holds
  pub tokens : List Token

pub data Call : Type 0 where
  hold_call : List String → Call
  release_call : ℕ → Call

release_token : Session → ℕ → Option Token → Session
release_token s i none = s
release_token s i (some k) = if k.once then s else record {
  holds = release k.targets s.holds;
  tokens = set s.tokens i (record { targets = k.targets; once = true });
}

unfoldable pub call : Session → Call → Session
unfolding release_token
call s (hold_call ts) = record {
  holds = hold ts s.holds;
  tokens = s.tokens ++ record { targets = ts; once = false } ∷ [];
}
call s (release_call i) = release_token s i (get_elem? s.tokens i)

unfoldable pub calls : Session → List Call → Session
unfolding call
calls s [] = s
calls s (c ∷ cs) = calls (call s c) cs

-- How often the tokens not yet released name a target.
abbrev pub outstanding : String → List Token → ℕ
outstanding u [] = 0
outstanding u (k ∷ ks) = (if k.once then 0 else named u k.targets) + outstanding u ks

outstanding-append :
    (u : String) (ks : List Token) (ts : List String)
    → outstanding u (ks ++ record { targets = ts; once = false } ∷ [])
      ≡ outstanding u ks + named u ts
outstanding-append u [] ts = omega arith
outstanding-append u (k ∷ ks) ts = omega (arith, outstanding-append u ks ts)

outstanding-set :
    (u : String) (ks : List Token) (i : ℕ) (k : Token)
    → get_elem? ks i ≡ some k
    → k.once ≡ false
    → outstanding u (set ks i (record { targets = k.targets; once = true })) + named u k.targets
      ≡ outstanding u ks
outstanding-set u [] i k e h = cc
outstanding-set u (x ∷ ks) zero k e h = ground arith
outstanding-set u (x ∷ ks) (suc i) k e h = ground (arith, outstanding-set u ks i k e h)

abbrev Counts : Session → Type 0
Counts s = (u : String) → s.holds u ≡ outstanding u s.tokens

call-Counts : (s : Session) (c : Call) → Counts s → Counts (call s c)
unfolding call
call-Counts s (hold_call ts) v u =
    omega (arith, hold-named ts s.holds u, v u, outstanding-append u s.tokens ts)
call-Counts s (release_call i) v u = elim (Option-cases (get_elem? s.tokens i)) [
  | inl gone ↦ rw (gone, release_token) (v u)
  | inr (k, here) ↦ elim (Bool-cases k.once) [
    | inl done ↦ rw (here, release_token, done) (v u)
    | inr first ↦
        rw (here, release_token)
          (simp first (
            omega (
              arith,
              release-named k.targets s.holds u,
              v u,
              outstanding-set u s.tokens i k here first,
            )))
  ]
]

calls-Counts : (s : Session) (cs : List Call) → Counts s → Counts (calls s cs)
unfolding calls
calls-Counts s [] v = v
calls-Counts s (c ∷ cs) v = calls-Counts (call s c) cs (call-Counts s c v)

abbrev pub idle : Session
idle = record { holds = λ _. 0; tokens = [] }

-- From the zero Holds, after any holds and releases, releases repeated or of unknown handles
-- included, a target is held exactly while some hold that names it has not been released.
pub held_while_outstanding :
    (cs : List Call) (u : String)
    → let s = calls idle cs in held s.holds u ≡ ltb 0 (outstanding u s.tokens)
unfolding held
held_while_outstanding cs u = ap (ltb 0) (calls-Counts idle cs (λ _. refl) u)
