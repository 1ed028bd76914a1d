-- ===== src/Paths/Queues.antt =====
-- The queue of `shortestPath` (apps/frontend/src/services/graphInvestigation.ts): its entries have at
-- most two depths, the lower one first.
use mathlib.Core.List.{Memᴰ}
use identity_access_graph.Prelude.{
  ℕ, ◌+◌, ◌≤◌, List, [], ◌∷◌, ◌++◌, ◌≡◌, ◌⊎◌, inl, inr, All, All-append, arith, subst, sym,
}
use identity_access_graph.Paths.Search.{Visit, depth_of}

abbrev pub IsAt : ℕ → List Visit → Type 0
IsAt d = All (λ v. depth_of v ≡ d)

unfoldable pub IsLevels : ℕ → List Visit → Type 0
IsLevels d [] = Unit
IsLevels d (v ∷ vs) = (depth_of v ≡ d) × IsLevels d vs ⊎ (depth_of v ≡ d + 1) × IsAt (d + 1) vs

IsAt-IsLevels : (d : ℕ) (vs : List Visit) → IsAt d vs → IsLevels d vs
unfolding IsLevels
IsAt-IsLevels d [] h = tt
IsAt-IsLevels d (v ∷ vs) (e, h) = inl (e, IsAt-IsLevels d vs h)

pub IsLevels-rest :
    (d : ℕ) (v : Visit) (vs : List Visit) → IsLevels d (v ∷ vs) → IsLevels (depth_of v) vs
unfolding IsLevels
IsLevels-rest d v vs (inl (e, h)) = subst (λ n. IsLevels n vs) (sym e) h
IsLevels-rest d v vs (inr (e, h)) = subst (λ n. IsLevels n vs) (sym e) (IsAt-IsLevels (d + 1) vs h)

pub IsLevels-head : (d : ℕ) (v : Visit) (vs : List Visit) → IsLevels d (v ∷ vs) → d ≤ depth_of v
unfolding IsLevels
IsLevels-head d v vs (inl (e, h)) = omega (arith, e)
IsLevels-head d v vs (inr (e, h)) = omega (arith, e)

pub IsLevels-concat :
    (d : ℕ) (vs : List Visit) (w : Visit)
    → depth_of w ≡ d + 1
    → IsLevels d vs
    → IsLevels d (vs ++ w ∷ [])
unfolding IsLevels
IsLevels-concat d [] w e h = inr (e, tt)
IsLevels-concat d (v ∷ vs) w e (inl (p, h)) = inl (p, IsLevels-concat d vs w e h)
IsLevels-concat d (v ∷ vs) w e (inr (p, h)) =
    inr (p, All-append (λ v. depth_of v ≡ d + 1) vs (w ∷ []) h (e, tt))

IsAt-mem : (d : ℕ) (vs : List Visit) (w : Visit) → IsAt d vs → Memᴰ w vs → depth_of w ≡ d
IsAt-mem d [] w h m = elim m [ ]
IsAt-mem d (v ∷ vs) w (e, h) (Memᴰ.head p) = subst (λ x. depth_of x ≡ d) (sym p) e
IsAt-mem d (v ∷ vs) w (e, h) (Memᴰ.tail m) = IsAt-mem d vs w h m

pub IsLevels-mem :
    (d : ℕ) (vs : List Visit) (w : Visit)
    → IsLevels d vs
    → Memᴰ w vs
    → (d ≤ depth_of w) × (depth_of w ≤ d + 1)
unfolding IsLevels
IsLevels-mem d [] w h m = elim m [ ]
IsLevels-mem d (v ∷ vs) w (inl (e, h)) (Memᴰ.head p) =
    let q = subst (λ x. depth_of x ≡ d) (sym p) e in (omega (arith, q), omega (arith, q))
IsLevels-mem d (v ∷ vs) w (inr (e, h)) (Memᴰ.head p) =
    let q = subst (λ x. depth_of x ≡ d + 1) (sym p) e in (omega (arith, q), omega (arith, q))
IsLevels-mem d (v ∷ vs) w (inl (e, h)) (Memᴰ.tail m) = IsLevels-mem d vs w h m
IsLevels-mem d (v ∷ vs) w (inr (e, h)) (Memᴰ.tail m) =
    let q = IsAt-mem (d + 1) vs w h m in (omega (arith, q), omega (arith, q))
