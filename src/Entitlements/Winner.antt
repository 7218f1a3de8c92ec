-- ===== src/Entitlements/Winner.antt =====
-- The grant that decides: the first in the order of sources, then of creation.
use paywall.Prelude.{
  ◌≤◌, ◌<◌, ◌≡◌, refl, sym, inl, inr, ◌⊎◌, none, some, List, [], ◌∷◌, ltb, ltb→lt, ltb→le, arith,
  Bool-cases, Every, nothing, and, Member, top, below, Member-inv, Every-inv, ◌∙◌,
}
use mathlib.Core.Path.{subst}
use paywall.Entitlements.{EntitlementGrant, source_priority, better, reduce_better, pick_winner}

-- `g` gives way to `w`: its source comes after, or is the same and `w` was not created before it.
abbrev pub GivesWay : EntitlementGrant → EntitlementGrant → Type 0
GivesWay g w =
    (source_priority g.source < source_priority w.source)
    ⊎ ((source_priority g.source ≡ source_priority w.source) × (g.created_at ≤ w.created_at))

GivesWay-refl : (g : EntitlementGrant) → GivesWay g g
GivesWay-refl g = inr (refl, omega arith)

GivesWay-trans : (a b c : EntitlementGrant) → GivesWay a b → GivesWay b c → GivesWay a c
GivesWay-trans a b c h h' = ground arith

-- The step keeps one of two grants, and both give way to it.
better_lem :
    (a b : EntitlementGrant)
    → ((better a b ≡ a) ⊎ (better a b ≡ b)) × GivesWay a (better a b) × GivesWay b (better a b)
unfolding better
better_lem a b = elim (Bool-cases (ltb (source_priority a.source) (source_priority b.source))) [
  | inl e ↦ rw e (inr refl, inl (ltb→lt _ _ e), GivesWay-refl b)
  | inr e ↦ elim (Bool-cases (ltb (source_priority b.source) (source_priority a.source))) [
    | inl e' ↦ rw (e, e') (inl refl, GivesWay-refl a, inl (ltb→lt _ _ e'))
    | inr e' ↦ elim (Bool-cases (ltb a.created_at b.created_at)) [
      | inl later ↦
          rw (e, e', later)
            (
              inr refl,
              inr (omega (arith, ltb→le _ _ e, ltb→le _ _ e'), omega (arith, ltb→lt _ _ later)),
              GivesWay-refl b,
            )
      | inr earlier ↦
          rw (e, e', earlier)
            (
              inl refl,
              GivesWay-refl a,
              inr (omega (arith, ltb→le _ _ e, ltb→le _ _ e'), ltb→le _ _ earlier),
            )
    ]
  ]
]

reduce_better_lem :
    (best : EntitlementGrant) (gs : List EntitlementGrant)
    → Member (reduce_better best gs) (best ∷ gs)
      × Every (λ g. GivesWay g (reduce_better best gs)) (best ∷ gs)
unfolding reduce_better
reduce_better_lem best [] = (top, and (GivesWay-refl best) nothing)
reduce_better_lem best (g ∷ gs) =
    let (m, gives) = reduce_better_lem (better best g) gs in
    let (kept, best_gives, g_gives) = better_lem best g in
    let (top_gives, rest) = Every-inv gives in
    let w = reduce_better (better best g) gs in
    (
      place kept (Member-inv m),
      and (GivesWay-trans best (better best g) w best_gives top_gives)
          (and (GivesWay-trans g (better best g) w g_gives top_gives) rest),
    )
  where
    place :
        {w : EntitlementGrant}
        → (better best g ≡ best) ⊎ (better best g ≡ g)
        → (better best g ≡ w) ⊎ Member w gs
        → Member w (best ∷ g ∷ gs)
    place (inl e) (inl e') = subst (λ x. Member x (best ∷ g ∷ gs)) (sym e ∙ e') top
    place (inr e) (inl e') = subst (λ x. Member x (best ∷ g ∷ gs)) (sym e ∙ e') (below top)
    place k (inr m) = below (below m)

-- The winner is one of the grants, and all of them give way to it.
pub pick_winner_lem :
    (gs : List EntitlementGrant)
    → ((gs ≡ []) × (pick_winner gs ≡ none))
      ⊎ ((w : EntitlementGrant) × (pick_winner gs ≡ some w)
          × Member w gs
          × Every (λ g. GivesWay g w) gs)
unfolding pick_winner
pick_winner_lem [] = inl (refl, refl)
pick_winner_lem (g ∷ gs) =
    let (m, gives) = reduce_better_lem g gs in inr (reduce_better g gs, refl, m, gives)
