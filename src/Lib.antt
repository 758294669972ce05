-- ===== src/Lib.antt =====
-- Verification of atabak_gold, a Persian gold and currency bot: it reads prices from an API, checks
-- and publishes them, runs the users' price alerts, credits campaigns, takes sales leads and
-- monitors itself.
--
-- The parts and how they interact. The market pipeline (src/market/) normalizes the prices of the
-- API, compares each with its baseline and keeps the state of each symbol. The alert subsystem
-- (src/alerts/) reads that state: a user creates alerts through the service, the engine evaluates
-- the active alerts of a symbol on each observation, reserves the trigger of those that fire and
-- follows the delivery of the message. The campaigns (src/campaigns/) record touches and credit a
-- conversion to one of them. The sales desk (src/sales/) normalizes what a customer types, stores it
-- as a lead and follows the lead to a sale; it asks the campaigns for the credit of a lead. The
-- monitoring (src/monitoring/) turns failures into incidents and decides what an administrator is
-- told.
--
-- Which file models which part:
--   Base: shared helpers. Base/Dict and Base/Sets model the `Map` and `Set` of JavaScript by lists,
--     Base/Texts its texts by lists of code points with `trim`, `startsWith` and `replace`,
--     Base/Number is the interface of its numbers: a theorem holds for every type with those
--     operations, and what it needs of IEEE 754 is a hypothesis (`IsLawful`,
--     `IsMonotone`). Base/Samples fills the interface with whole numbers, for the tests.
--   Alerts/Types: src/alerts/alert.types.ts. Alerts/Evaluator: src/alerts/alert-evaluator.ts
--     (`evaluateAlert` is `evaluate_alert`). Alerts/Store: src/alerts/alert.store.ts, the maps, the
--     two indexes and one function per operation of a transaction.
--   Alerts/Service: src/alerts/alert.service.ts. `create`, `enable`, `disable`, `edit` and `remove`
--     read the store before their transaction (`seen`) and again in it (`s`), since other
--     transactions run in between; `reserve_trigger`, `begin_attempt`, `mark_sent`,
--     `record_failure` and `mark_undeliverable` are one transaction each. Steps states what an
--     operation may do as a step relation, Cases, Creation and Firing relate each operation to it,
--     Wanted, Targets and Granted are about the alert of a creation,
--     and Consistency holds the invariant. Operations puts the calls in a list, in any order, and
--     Runs, Guarantees and Capacity are about such runs.
--   Alerts/Engine: src/alerts/alert-engine.service.ts, `handleCommittedPrices` and
--     `evaluateSymbol`. Its loop awaits each reservation; `Visit` says which operations other callers
--     complete before it.
--   Alerts/Notification: src/alerts/alert-notification.service.ts, `deliver` with the replies of the
--     platform as arguments, and `recoverPending`; Attempts
--     counts the calls of the platform, Settled and Closed are about the end of a delivery.
--   Alerts/Bonus: src/alerts/alert-capacity.service.ts.
--   Market/Change: src/market/price-change.calculator.ts. Market/Sanity:
--     src/market/sanity-checker.service.ts.
--   Market/Amount: `parseAmount` of src/common/money.ts. Market/Normalizer:
--     src/market/price-normalizer.service.ts; the loop of `normalize` is a recursion over the entries
--     with the set of symbols seen so far.
--   Market/State: src/market/market-state.service.ts and src/market/market-state.store.ts. Defs holds
--     the state and its operations (`commit` answers `none` where the code throws), Stored the file
--     and `restore` and `persist`; Days, Window, Bounds and Restart are about the day boundary, the
--     daily window and a restart, Reached about every state that the service can come to.
--   Market/Engine: src/market/market-engine.service.ts, `evaluateCycle`, with the parser's result as
--     an argument. Verdicts, Commits, Answers and Reasons follow its loops, Cycle and Guarantees are about the
--     whole cycle. Alerts/Engine/Cycle hands its events to the alert engine.
--   Monitoring/Rules: src/monitoring/monitoring.rules.ts.
--   Sales/Phone: src/sales/phone.ts. Digits, Accepted and Grouped hold the lemmas on digits,
--     prefixes and the groups of the display form.
--   Sales/Lead: src/sales/lead-validation.ts; the Unicode classes of letters are a parameter.
--   Sales/Lifecycle: the statuses of a lead in src/sales/sales.types.ts.
--   Sales/Desk: src/sales/sales.service.ts over src/sales/sales.store.ts. Store holds the maps, the
--     operations of a transaction and the commit; Input, Create, Updates, Statuses, Sale and Repair
--     the operations that write, each with the store that it read (`seen`) and the store of its
--     transaction (`s`). Kept, Advance and Sound are about the commit, Follow, Steps, Writes and
--     Records about each operation; Runs puts the transactions in any order, Once is about such runs,
--     Moves, Answers, Outcomes and Active about single calls. `convertToCustomer` is two
--     transactions: `begin_conversion` is the first, `link_customer` the second, and
--     `convert_to_customer` the call, with what other transactions do in between. Reference has
--     `isLeadReference` of src/sales/lead-reference.ts.
--   Campaigns/Attribution: src/campaigns/attribution.ts, and `sortTouches` of
--     src/campaigns/campaign.store.ts; `localeCompare` is a parameter, a total order of texts where
--     a theorem needs it.
--
-- Bounds and fuel: no function of the development runs on fuel, every loop is structural recursion
-- on a list or on the attempts that are left: the retries of `deliver` and the 8 references of
-- `allocateReference`. Times are milliseconds as natural numbers, and a difference of times is
-- written as a comparison of sums where the code may subtract a later time.
--
-- Not modelled: reading and writing files, the network, the clock and the source of new alert ids
-- (their values are arguments, and the theorems on runs of alert operations ask that a new id is not
-- in use; the counter of the sales store is modelled), the configuration of the environment along a
-- run (it is constant), the texts of messages, logs and explanations, and the remaining parts of the
-- bot: screens, publishing, referrals, the store of campaigns, the administration.
pub mod Base
pub mod Alerts
pub mod Campaigns
pub mod Market
pub mod Monitoring
pub mod Sales
