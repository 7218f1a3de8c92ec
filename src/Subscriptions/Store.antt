-- ===== src/Subscriptions/Store.antt =====
-- The database calls of apps/api/src/subscriptions/subscriptions.service.ts. An `update` rewrites
-- the row with that id: each one follows a read of the same row in the same request.
use paywall.Prelude.{
  ℕ, suc, Bool, false, not, Option, none, some, [], ◌∷◌, ◌++◌, ◌==◌, is_at, is_some, find_first,
  update_all, not_found, record_not_found, unique_violation, Request, ◌>>=◌, ◌>>◌, return, guard,
  or_throw, read, write,
}
use paywall.Subscriptions.Model.{
  Db, Subscription, SubscriptionItem, Trial, SubscriptionChange, SubscriptionEvent, Price,
  AuditAction, Publication,
}

abbrev pub has_id : ℕ → Subscription → Bool
has_id key s = s.id == key

-- `subscription.findUnique`, with the NotFoundException of `getOwnedById` and `runTransition`.
unfoldable pub get_subscription : ℕ → Request Db Subscription
get_subscription id db = or_throw (find_first (has_id id) db.subscriptions) not_found db

-- `subscription.update`
unfoldable pub update_subscription : ℕ → (Subscription → Subscription) → Db → Db
update_subscription id f db = record db {
  subscriptions = update_all (has_id id) f db.subscriptions;
}

-- `subscriptionItem.findFirstOrThrow`
unfoldable pub get_item : ℕ → Request Db SubscriptionItem
get_item id db = or_throw (find_first (λ i. i.subscription_id == id) db.items) record_not_found db

unfoldable pub update_item : ℕ → (SubscriptionItem → SubscriptionItem) → Db → Db
update_item id f db = record db { items = update_all (λ i. i.id == id) f db.items }

-- `price.findUniqueOrThrow`
unfoldable pub get_price : ℕ → Request Db Price
get_price id db = or_throw (find_first (λ p. p.id == id) db.prices) record_not_found db

-- The trial of a subscription, `include: { trial: … }`.
unfoldable pub find_trial : ℕ → Db → Option Trial
find_trial id db = find_first (λ t. is_at t.subscription_id id) db.trials

unfoldable pub update_trial : ℕ → (Trial → Trial) → Db → Db
update_trial id f db = record db { trials = update_all (λ t. t.id == id) f db.trials }

unfoldable pub update_change : ℕ → (SubscriptionChange → SubscriptionChange) → Db → Db
update_change id f db = record db { changes = update_all (λ c. c.id == id) f db.changes }

-- The optional key of an event, compared with another: null is equal to nothing.
abbrev pub same_key : Option ℕ → SubscriptionEvent → Bool
same_key none e = false
same_key (some key) e = is_at e.idempotency_key key

-- `subscriptionEvent.findUnique({ where: { idempotencyKey } })`
unfoldable pub find_event : Option ℕ → Db → Option SubscriptionEvent
find_event key db = find_first (same_key key) db.events

-- `subscriptionEvent.create`: the key is unique.
unfoldable pub create_event : SubscriptionEvent → Request Db (Unit {0})
unfolding find_event
create_event e = do
  found ← read (find_event e.idempotency_key)
  guard (not (is_some found)) unique_violation
  write (λ db. record db { events = db.events ++ e ∷ [] })

unfoldable pub record_audit : AuditAction → ℕ → ℕ → Db → Db
record_audit action user_id id db = record db {
  audit = db.audit ++ record { action = action; user_id = user_id; subscription_id = id } ∷ [];
}

unfoldable pub publish : Publication → Db → Db
publish p db = record db { publications = db.publications ++ p ∷ [] }

-- A fresh id, as `@default(uuid())` gives it.
unfoldable pub fresh_id : Request Db ℕ
fresh_id db = return db.next_id (record db { next_id = suc db.next_id })
