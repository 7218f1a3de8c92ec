-- ===== src/Subscriptions/StateMachine.antt =====
-- The allow-list of status transitions, apps/api/src/subscriptions/subscription-state-machine.ts.
use paywall.Prelude.{
  ℕ, ◌≡◌, ◌≢◌, ◌↔◌, ◌⊎◌, refl, Bool, true, false, List, [], ◌∷◌, ◌||◌, arith, ◌==◌, Request, guard,
  bad_request, if◌then◌else◌,
}

pub data SubscriptionStatus : Type 0 where
  incomplete trialing active past_due grace_period paused canceled expired suspended :
      SubscriptionStatus

-- `===` on statuses, by their position in the enum.
abbrev status_index : SubscriptionStatus → ℕ
status_index incomplete = 0
status_index trialing = 1
status_index active = 2
status_index past_due = 3
status_index grace_period = 4
status_index paused = 5
status_index canceled = 6
status_index expired = 7
status_index suspended = 8

abbrev pub is_status : SubscriptionStatus → SubscriptionStatus → Bool
is_status a b = status_index a == status_index b

allowed_transitions : SubscriptionStatus → List SubscriptionStatus
allowed_transitions incomplete = trialing ∷ active ∷ canceled ∷ []
allowed_transitions trialing = active ∷ canceled ∷ expired ∷ suspended ∷ []
allowed_transitions active = active ∷ past_due ∷ paused ∷ canceled ∷ suspended ∷ []
allowed_transitions past_due = active ∷ grace_period ∷ canceled ∷ suspended ∷ []
allowed_transitions grace_period = active ∷ expired ∷ canceled ∷ suspended ∷ []
allowed_transitions paused = active ∷ canceled ∷ suspended ∷ []
allowed_transitions canceled = active ∷ []
allowed_transitions expired = []
allowed_transitions suspended = active ∷ canceled ∷ []

includes : List SubscriptionStatus → SubscriptionStatus → Bool
includes [] s = false
includes (t ∷ ts) s = is_status t s || includes ts s

unfoldable pub is_transition_allowed : SubscriptionStatus → SubscriptionStatus → Bool
unfolding allowed_transitions includes
is_transition_allowed from to =
    if is_status from to then is_status from active else includes (allowed_transitions from) to

unfoldable pub assert_transition :
    {S : Type 0} → SubscriptionStatus → SubscriptionStatus → Request S (Unit {0})
unfolding is_transition_allowed
assert_transition from to = guard (is_transition_allowed from to) bad_request

-- From which statuses a status can be entered, as a condition for each target.
abbrev pub Enters : SubscriptionStatus → SubscriptionStatus → Type 0
Enters incomplete s = ⊥
Enters trialing s = s ≡ incomplete
Enters active s = s ≢ expired
Enters past_due s = s ≡ active
Enters grace_period s = s ≡ past_due
Enters paused s = s ≡ active
Enters canceled s = (s ≢ canceled) × (s ≢ expired)
Enters expired s = (s ≡ trialing) ⊎ (s ≡ grace_period)
Enters suspended s = (s ≢ incomplete) × (s ≢ suspended) × (s ≢ canceled) × (s ≢ expired)

-- The allow-list holds exactly the transitions of the lifecycle: a trial is entered only from
-- INCOMPLETE, a grace period only from PAST_DUE, EXPIRED only from a trial or a grace period, ACTIVE
-- from everything but EXPIRED, and nothing returns to INCOMPLETE.
pub is_transition_allowed_iff :
    (from to : SubscriptionStatus) → (is_transition_allowed from to ≡ true) ↔ Enters to from
unfolding is_transition_allowed
is_transition_allowed_iff incomplete to = ground arith
is_transition_allowed_iff _ to = ground arith

-- A chain of allowed transitions.
pub data Reaches (s : SubscriptionStatus) : SubscriptionStatus → Type 0 where
  here : Reaches s s
  next : {t u : SubscriptionStatus} → Reaches s t → is_transition_allowed t u ≡ true → Reaches s u

expired_stuck : (s t : SubscriptionStatus) → s ≡ expired → is_transition_allowed s t ≡ false
unfolding is_transition_allowed
expired_stuck s t h = ground arith

pub expired_final : (t : SubscriptionStatus) → Reaches expired t → t ≡ expired
expired_final t here = refl
expired_final t (next {t = s} r e) = cc (expired_stuck s t (expired_final s r))
