-- ===== src/Lib.antt =====
-- Verification of the donor API of ImpactGraph (apps/donor-api, written in Go).
--
-- The program and its parts. The donor API records gifts and refunds that a payment processor reports,
-- derives from them what donors are recognised for, and checks its records against the processor.
-- Events of the processor come in through internal/payments/webhook.go, which verifies them and keeps
-- the few fields that the worker needs; internal/payments/facts.go reads the fields of the processor's
-- objects. internal/recognition turns the stored gifts, refunds and billing periods into net amounts,
-- referral relationships, the giving streak and the streak card. internal/badges awards badges for a
-- donor's signals, and internal/store/recognition_rules.go does the same by rules that staff may
-- change. internal/reconcile, with cmd/reconcile/main.go, lists the processor's charges and refunds of
-- a day and reports where the stored rows differ. internal/analytics accepts events of a taxonomy.
-- internal/store keeps the donors' events with their reservations and waitlists, which donors and staff
-- change under a lock of the event's row, and the referral totals that a referrer's dashboard reads,
-- which are moved each time a referred donor's projection is saved. Who may book early or see an
-- invite-only event is decided by the badges.
--
-- The files and the code that they model:
--   Base and below               helpers: Boolean tests, lists, Go maps as association lists, results
--                                with an error, integers, sorting, the order of strings, and the loop
--                                that drops equal repetitions and refuses different ones
--   Recognition/Facts            internal/recognition/recognition.go: the records and `cleanGifts`
--   Recognition/Net              `NetGifts`
--   Recognition/Relationships    `Relationships` and `FoundingQualifiedAt`
--   Recognition/Streak           `GivingStreak` with `donorPeriods`, `periodPayments`,
--                                `renewalBoundaries` and `countStreak`
--   Recognition/Ladder           `Ladder` and `LadderWithMilestones` with their milestones and bar
--   Badges                       internal/badges/badges.go
--   Rules                        internal/store/recognition_rules.go: the default rules, the rules in
--                                force, `ruleEarned` and the validation of `SetRules`
--   Payments/Facts               internal/payments/facts.go
--   Payments/Webhook, /Events    internal/payments/webhook.go: `minimalObject` with its helpers, and
--                                `verifyEvent` with `Receive`
--   Reconcile/Window, /Objects,  internal/reconcile/reconcile.go: the window, the checks of the
--   /Report, /Diff               processor's objects, the report and `Diff`
--   Reconcile/Listing, /Links    cmd/reconcile/main.go: `listSplitting` and `invoiceLink`; the
--                                range of `listByCreated` in internal/payments/gateway.go
--   Events, /Gate, /Seats,       internal/store/events.go and event_staff.go, with the queries of
--   /Booking, /CheckIn, /Staff   db/events.sql: the tables, who may see and book an event, `fillSeats`,
--                                `Reserve` and `Cancel`, `CheckIn`, and the staff's operations
--   Events/Token, /Calendar      the check-in token, and `escapeICS` with `foldICS`
--   Referrals                    internal/store/financial.go: `referralContribution`,
--                                `applyReferralDelta` and `recomputeReferredTotals`, with the queries of
--                                db/financial.sql and db/outbox.sql
--   Financial                    internal/store/financial.go: what a projection takes from the
--                                recognition package, `nextRefresh` with `Reaches`, `projectConversion`
--                                and `netMinor`
--   Analytics                    internal/analytics/analytics.go
--   Examples                     the theorems at concrete inputs
-- The children of a module hold its proofs, under a name for what they prove.
--
-- How the code is modelled. A time is the number of nanoseconds since Go's zero time, so a test for
-- the zero time is a test for 0 and `utc` changes nothing. An int64 is an integer without bounds:
-- amounts are bounded by the database and sums of them stay far below 2 ^ 63; where the code decodes
-- a number, the range of int64 is a test of the model. Strings are native texts, whose order is the
-- order of their bytes, and `len` counts bytes. A Go map is an association list that is read by key
-- only, but for `netMinor`, where the order of its entries does not matter; `slices.Sort` is a sort by
-- insertion, which agrees with it where equal elements cannot be told apart or, for billing periods,
-- where a repetition is refused afterwards. An error that the code returns is a value, and the loops are
-- recursion on their list. `listSplitting` recurses without a
-- bound, so it takes fuel; one theorem says how much is enough, and another where none is.
--
-- The tables are lists of rows, and a query is the function of the rows that its SQL describes. An
-- operation runs alone, since the code locks the event's or the projection's row first; if it returns
-- an error, the transaction leaves the tables as they were. Concurrent operations are then sequences of
-- steps (`Step` and `History`). `fillSeats` takes a fuel of one more than the number of those who wait,
-- and `foldICS` one more than the bytes of the line; theorems say that both are enough. `foldICS` would
-- not end on 76 bytes of which none but the first starts a character, which no UTF-8 text holds.
--
-- Parameters stand for code that is not in the repository: the calendar of a time zone, the decoding
-- of JSON and images, UUIDs, base64 and HMAC, the processor's SDK. The paging through the processor's lists, in
-- internal/payments/gateway.go, is a parameter too. `midnight`, the start of a date in a zone, is what
-- time.Date gives for it; where a change of the clocks skips that hour, time.Date gives another instant,
-- and a theorem that supposes that each date begins at its midnight says nothing of such a zone.
--
-- Not modelled: the HTTP handlers, the other SQL services and the generated queries, the transactions
-- and their isolation, the validation of an event's texts, the badges and audit records that go with a
-- check-in or a change of totals, mail, text messages, push notifications and wallet passes, sign-in,
-- and the commands, which call outside services and hold no logic of the parts above;
-- `reconcileWindowPaced`, which gathers the arguments of `Diff` from the queries and the processor; `YesterdayWindow` and
-- `DayWindow`, which only read the New York calendar; and the web app and the ledger contract, which
-- are written in other languages.
pub mod Base
pub mod Financial
pub mod Recognition
pub mod Referrals
pub mod Badges
pub mod Rules
pub mod Payments
pub mod Reconcile
pub mod Events
pub mod Analytics
pub mod Examples
