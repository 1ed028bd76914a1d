-- ===== src/Pipeline/Schedule/Order.antt =====
-- Positions in a split of the list of stages.
use identity_access_graph.Prelude.{
  head?, some, ◌≡◌, refl, sym, ◌∙◌, subst, false, List, [], ◌∷◌, ◌++◌, Option, ◌==◌, All, includes,
  index_of, length, drop, arith, ==_refl, drop-length, append_assoc,
}
use identity_access_graph.Pipeline.Types.{Stage, stages_order, stage_eq, StageData}
use identity_access_graph.Pipeline.Engine.{Config, invoke}
use identity_access_graph.Pipeline.Schedule.{apply_stages, output_of}

abbrev IsDistinct : List Stage → Type 0
IsDistinct [] = Unit
IsDistinct (s ∷ ss) = All (λ t. (s == t) ≡ false) ss × IsDistinct ss

All-middle :
    (s t : Stage) (xs ys : List Stage)
    → All (λ u. (s == u) ≡ false) (xs ++ t ∷ ys)
    → (s == t) ≡ false
All-middle s t [] ys h = h.0
All-middle s t (x ∷ xs) ys h = All-middle s t xs ys h.1

includes-before :
    (xs : List Stage) (s : Stage) (ys : List Stage)
    → IsDistinct (xs ++ s ∷ ys)
    → includes xs s ≡ false
includes-before [] s ys h = refl
includes-before (x ∷ xs) s ys h = rw (All-middle x s xs ys h.0) (includes-before xs s ys h.1)

index_of-before :
    (xs : List Stage) (s : Stage) (ys : List Stage)
    → includes xs s ≡ false
    → index_of (xs ++ s ∷ ys) s ≡ length xs
index_of-before [] s ys h = rw (==_refl s)
index_of-before (x ∷ xs) s ys h = ground (arith, index_of-before xs s ys)

module _ (xs : List Stage) (s : Stage) (ys : List Stage) (split : xs ++ s ∷ ys ≡ stages_order) where
  pub includes-split : includes xs s ≡ false
  includes-split = includes-before xs s ys (subst IsDistinct (sym split) (ground arith))

  pub index_of-split : index_of stages_order s ≡ length xs
  index_of-split =
      subst (λ o. index_of o s ≡ length xs) split (index_of-before xs s ys includes-split)

  pub drop-split : drop (length xs) stages_order ≡ s ∷ ys
  drop-split = subst (λ o. drop (length xs) o ≡ s ∷ ys) split (drop-length xs (s ∷ ys))

  pub split_next : (xs ++ s ∷ []) ++ ys ≡ stages_order
  split_next = append_assoc xs (s ∷ []) ys ∙ split

pub apply_stages-concat :
    (c : Config) (xs : List Stage) (s : Stage) (d : Option StageData)
    → apply_stages c (xs ++ s ∷ []) d ≡ output_of (invoke c s (apply_stages c xs d))
unfolding apply_stages
apply_stages-concat c [] s d = refl
apply_stages-concat c (x ∷ xs) s d = apply_stages-concat c xs s (output_of (invoke c x d))

pub split_head :
    (xs : List Stage) (s : Stage) (rest : List Stage)
    → head? rest ≡ some s
    → xs ++ rest ≡ stages_order
    → (ys : List Stage) × (xs ++ s ∷ ys ≡ stages_order)
split_head xs s [] h p = cc
split_head xs s (x ∷ ys) h p =
    let q : x ≡ s = cc in (ys, subst (λ z. xs ++ z ∷ ys ≡ stages_order) q p)
