-- ===== src/Lib.antt =====
-- A verification library for AVTOSH, a vehicle marketplace (Next.js and PostgreSQL). It models the
-- services that own the marketplace's rules over the tables that their repositories write.
--
-- The program: route handlers under src/app call services (src/services), which run transactions
-- (src/lib/server/db/client.ts) over the statements of the repositories (src/repositories). The
-- payment service also calls a provider, and the lifecycle of a listing is shared by the seller's
-- operations, moderation, payments and background jobs.
--
-- Where it is modelled:
--   Common     lists, tests, tables with the laws of select and guarded update
--   Db         the rows of the tables, the database as one record, and transactions `Tx`: a body
--              reads and writes the database or throws, and a throw leaves the old database
--   Lifecycle  src/services/listing-lifecycle.ts with its two repositories: Store has the
--              statements, Edits and Visibility the operations, Ops histories of them, Management what
--              src/lib/seller/management.ts offers
--   Payment    src/services/payment-checkout.ts and the statements of
--              src/repositories/payment-checkout.ts, promotions.ts, renewals.ts and moderation.ts:
--              Checkout has the phases around the provider's createOrder, Verify the verification,
--              Fulfil what a success does, Periods the period rows,
--              Campaigns src/services/premium-campaign.ts, Grants histories of it,
--              Purchases src/services/promotion-purchases.ts, Purchased what it comes to
--   Submission src/services/listing-submission.ts with src/repositories/listing-publications.ts:
--              Store has the statements, Catalog the checks of a draft, Submit and Resubmit the
--              operations, Ops histories of them; the catalog's own queries are a parameter
--   Auth       src/services/auth.ts and src/auth/current-user.ts over src/repositories/auth.ts: Store
--              has rows and statements, Otp the calls, Guards who a request is, Ops histories, Steps
--              the abstract machine of the challenges; hashing, phone parsing and delivery are
--              parameters, as is the success of the WhatsApp provider
--   Content    src/services/listing-patch.ts and listing-edit.ts: Selections and Patch have the
--              resolution of a content patch, Adjusted what it makes of a snapshot, Checks the checks
--              before moderation and before an approval, Revise the seller's updates and submission
--              of an edit, Coherence and Revised what these keep; phone parsing and trimming are
--              parameters
--   Moderation src/services/moderation.ts, moderation-edit.ts, moderation-adjustments.ts and
--              moderation-shared.ts: Claims has the claims and the gate of moderation writes,
--              Suspension suspendListing, Plan the image plan, Adjustments the statements of the
--              adjustments with Save and Apply over them, Reviews the statements of a decision,
--              Decide decide and EditDecide decideEdit; the others have what these achieve
--   Renewals   src/services/renewals.ts over src/repositories/renewals.ts: Intents has the state and
--              the payment intent, Convergence that all requests come to one payment
--   Jobs       src/services/lifecycle-jobs.ts over src/repositories/lifecycle-jobs.ts: Expiry, Promotions,
--              Notifications with Schedule and Reminders, Cleanup are the workers; the others have
--              what their runs achieve
--
-- Conventions: function and column names are the source's in snake case. Ids, texts and storage
-- paths are numbers, of which 0 is the empty text, instants are milliseconds. An SQL statement is a
-- function on the rows, its `where` a Boolean condition and its `set` a record update; a partial
-- unique index behind `on conflict do nothing` is the test that it makes. `now()` of the
-- transaction and `Date.now()` of the process are two fields of a `Clock`. A row lock serializes
-- the transactions of a listing or a payment, so a transaction is one step and interleavings are
-- sequences of transactions. A provider is a parameter. Error codes are kept; messages, details,
-- log lines and the payloads of audit and outbox rows are not, but for the storage paths that a
-- cancelled edit hands over.
--
-- A bounded loop, the wait of a request for another's claim or the batches of a worker, recurs on
-- the turns that are left, as the source's `for` does. The delivery of reminders loops until a batch
-- comes back short; it has fuel, and Jobs.Completion shows how much is enough.
--
-- Not modelled: the React pages and route handlers, image processing and storage, delivery of codes,
-- search and catalog queries, the moderators' queue and review pages, which read only; and the
-- services for drafts, images of drafts and edits, guest
-- drafts, favorites, reports and administration, whose rows the components above do not read.
-- Statements do not fail, so what the workers count as errors of a row is not there. That a provider's
-- transaction id is unique among the payments, a constraint of the table, is not checked when a
-- payment succeeds. The rows that refer to images stay the same while a run cleans images up.
pub mod Common
pub mod Db
mod Samples
pub mod Lifecycle
pub mod Payment
pub mod Submission
pub mod Auth
pub mod Moderation
pub mod Renewals
pub mod Jobs
pub mod Content
