-- ===== src/Entitlements/Quota/Refinement.antt =====
-- Sequences of requests on a usage counter, beside those on the quota.
use paywall.Prelude.{ℕ, ◌≡◌, refl, ap, ◌∙◌, Bool, Option, List, [], ◌∷◌}
use paywall.Dates.{Date}
use paywall.Entitlements.{UsageLimit, EntitlementDefinition, EntitlementDb}
use paywall.Entitlements.Quota.{UsageRequest, ceiling, quota_step, serve_usage, Shows}
use paywall.Entitlements.Quota.Steps.{serve_usage-Agrees}

-- What is granted of a sequence of requests, and what is used after it: by the quota,
abbrev pub run_quota : Option ℕ → List (Date × UsageRequest) → ℕ → List Bool × ℕ
run_quota limit [] used = ([], used)
run_quota limit ((now, q) ∷ qs) used =
    let step = quota_step limit q used in
    let rest = run_quota limit qs step.1 in (step.0 ∷ rest.0, rest.1)

-- and by the service.
unfoldable pub serve_usages :
    ℕ → ℕ → ℕ → ℕ → List (Date × UsageRequest) → EntitlementDb → List Bool × EntitlementDb
unfolding serve_usage
serve_usages organization application key user [] db = ([], db)
serve_usages organization application key user ((now, q) ∷ qs) db =
    let step = serve_usage organization application key user now q db in
    let rest = serve_usages organization application key user qs step.1 in (step.0 ∷ rest.0, rest.1)

-- Through any sequence of increments, decrements, resets and reads of one usage counter, whose limit
-- and definition are given and whose period has no end, the service grants exactly the requests that
-- an abstract quota grants, one number with a ceiling, and its counter shows the quota's number
-- throughout.
pub serve_usages_quota :
    (organization application key user : ℕ) (d : EntitlementDefinition) (l : Option UsageLimit)
    (qs : List (Date × UsageRequest)) (used : ℕ) (db : EntitlementDb)
    → Shows organization application key d l db used
    → ((serve_usages organization application key user qs db).0 ≡ (run_quota (ceiling l) qs used).0)
      × Shows organization application key d l
          (serve_usages organization application key user qs db).1
          (run_quota (ceiling l) qs used).1
unfolding serve_usages
serve_usages_quota organization application key user d l [] used db shows = (refl, shows)
serve_usages_quota organization application key user d l ((now, q) ∷ qs) used db shows =
    let (granted, shows') =
      serve_usage-Agrees organization application key d l user now q used db shows in
    let (granted', shows'') =
      serve_usages_quota organization application key user d l qs (quota_step (ceiling l) q used).1
        (serve_usage organization application key user now q db).1 shows' in
    (
      ap
            (λ b.
              b
              ∷ (serve_usages organization application key user qs
                  (serve_usage organization application key user now q db).1).0)
            granted
          ∙ ap (λ bs. (quota_step (ceiling l) q used).0 ∷ bs) granted',
      shows'',
    )
