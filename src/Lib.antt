-- ===== src/Lib.antt =====
-- The billing and licensing core of the platform's API (apps/api), as a model and its theorems.
--
-- The API is a set of services over one relational database, reached through Prisma. A service
-- method reads rows, checks conditions, throws an HTTP exception or writes rows, and some of them
-- work inside a database transaction. The model keeps that shape: a database is a record of tables
-- (lists of rows in order of creation), and a method is a request, a function from the database to
-- a value or an error, with the database that it leaves (Prelude/Requests). Writes before a throw
-- stay, unless the request is inside `transaction`, which rolls them back.
--
-- Parts, and where they stand:
-- - Dates, Dates/Calendar, Dates/Billing: JavaScript's Date and addBillingInterval of
--   apps/api/src/subscriptions/billing-interval.util.ts.
-- - Subscriptions/StateMachine: the allow-list of statuses, subscription-state-machine.ts.
-- - Subscriptions/Proration: calculateProration, proration.util.ts.
-- - Subscriptions/Model, Store: the rows of the engine and the calls of Prisma on them.
-- - Subscriptions/Transition: `runTransition` of subscriptions.service.ts, with the replay of an
--   idempotency key, the version check, the computation, the assertion of the transition, the two
--   writes and the publication. `Compute` is the closure that a caller passes.
-- - Subscriptions/Lifecycle (activate, resume, pause, markPastDue, enterGracePeriod, expire, suspend,
--   reactivate, extendTrial), Renewal (renew), Changes (applyChange, cancelScheduledChange),
--   Cancellation (cancel), Creation (create): the operations that call it, or write by themselves.
-- - Subscriptions/Commands: all of these requests as one type, and runs of them; this is what
--   SubscriptionLifecycleController hands to the service.
-- - Subscriptions/Redemption: applyCoupon and removeCoupon, on the subscription's database with the
--   coupons' tables beside it.
-- - Coupons (Promotions, Eligibility, Counting): apps/api/src/coupons, the coupons, their promotion codes
--   and resolveForRedemption, which Subscriptions/Redemption calls.
-- - Entitlements: apps/api/src/entitlements and usage-limits. The module has the rows, the resolver
--   (recompute) and hasEntitlement; Grants creates, revokes and synchronizes grants; Usage counts usage,
--   and Quota is the abstract quota that a counter is compared with.
-- - Licenses: apps/api/src/licenses/licenses.service.ts, with the unique constraint on a
--   license's rows and the foreign key on their users.
-- - Organizations: apps/api/src/organizations/organizations.service.ts; Organizations/Slugify is
--   apps/api/src/common/utils/slug.util.ts.
-- - Pagination: apps/api/src/common/utils/cursor-pagination.util.ts. The text of a number and base64url
--   are the parameter `Runtime`. Beside it stands `walk`, a client that follows the cursors of a list
--   method, which is not code of the repository.
-- - Seats: apps/api/src/seats/seats.service.ts. The compare-and-swap loop of `assign` takes what
--   other requests write between the search for a seat and its claim as a parameter.
-- - Jobs, Jobs/Worker, Jobs/Recurrence: the job queue, its worker and computeNextRun, in
--   apps/api/src/background-jobs. The processors of jobs are a parameter of the worker.
-- The children of these modules hold the lemmas and are named for what they are about; the modules
-- called Tests apply the theorems to example data.
--
-- How code and model correspond: an id, a user, a text or a stored JSON value is a number, an
-- optional idempotency key of 0 is the empty text (Pagination and Organizations, which
-- look into texts, have them as lists of character codes), a fresh uuid is the next of a counter, `update` by
-- id rewrites the rows of that id, `findFirst` takes the first row in order of creation. Dates
-- are milliseconds since 1970 in UTC: addBillingInterval works in the server's local time, so the model
-- is exact for a server in UTC. One request reads the clock once. Money is in integer minor units;
-- the product of an amount and a fraction in doubles, `Math.round(amount * fraction)`, is the
-- parameter `scale` with the laws `IsRounding`, which rounding to the nearest has.
--
-- Fuel: the calendar's search for a month runs on as many rounds as there are days, which is enough
-- since a month has at least one; the attempts of `assign` are the code's own five; the
-- weekday loop of computeNextRun has seven rounds, which are enough for the weekdays that exist,
-- and `none` stands for the loop that never ends on others; the search for a free slug has one round
-- more than there are organizations, of which one must give a slug that none of them has; the walk
-- through pages has one page more than there are rows, since each page but the last has a row.
--
-- Not modelled: failures of the database or of the network; dates beyond the range of Date, which an
-- enormous interval count reaches; the foreign keys on the target plan and price of a scheduled
-- change; the columns environmentType, provider, providerSubscriptionId and metadata of a subscription;
-- the roles that the controllers require; a worker that hangs on a schedule with a weekday of 7 to 9,
-- whose job fails in the model as on a schedule that throws; the reads of the services, but for getUsage and hasEntitlement; negative limits and amounts
-- of usage; validateApiKey, validateLicenseKey and validateSeat of the runtime, with the license keys,
-- devices and API keys that they read; audit entries beyond their action, user and subject; the
-- webhooks, jobs and automation behind a published event; interleavings of requests, but in `assign`
-- of seats and in the redemptions of two requests that have both resolved a coupon; the text of a
-- recurring schedule; the other services of the API, the web application and the packages.
pub mod Coupons
pub mod Dates
pub mod Entitlements
pub mod Jobs
pub mod Licenses
pub mod Organizations
pub mod Pagination
pub mod Prelude
pub mod Seats
pub mod Subscriptions
