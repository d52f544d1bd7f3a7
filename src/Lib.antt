-- ===== src/Lib.antt =====
-- Finty, a personal finance application of several services. This library models the core of the
-- finance service, of the services that follow its events and of those that advise its users, from
-- their Python code.
--
-- Finance (services/finance-service). A user's accounts hold transactions; each call of
-- `AccountService` and `TransactionService` (services.py) builds a draft by the builders of the
-- domain, checks its rules, and writes rows and outbox events in one block.
--   Shared         domain/shared/: exceptions (Errors), decimals and rounding (Decimal), currency
--                  codes (Currency), `Money` (Money). What the code takes from Python's Unicode
--                  tables and from `Decimal(text)` is the record `Python`, a parameter.
--   Finance/ValueObjects, Logic, Builders, Events
--                  domain/value_objects.py, logic.py, builders.py and events.py.
--   Finance/Store  the tables of models.py as lists of rows, with the statements that the services
--                  run on them and the constraints that PostgreSQL checks.
--   Finance/Session
--                  `atomic`: a block commits or leaves the tables as they were.
--   Finance/Translate, Accounts, Transactions
--                  services.py, one function per method, with the tables as state.
--   Finance/Invariant, Commands
--                  the invariant of the tables, and sequences of calls on a new database.
--   Finance/Relay  `OutboxRelay` of services.py; the stream is an argument.
--   Finance/Backfill
--                  `OutboxBackfill` of services.py, for a given number of rounds.
--   Finance/Audit  `audit_categorization` of services.py and the command `verify-invariants` of
--                  commands.py; Silent, Repaired and Fixed are its theorems.
--
-- Analytics (services/analytics-service) follows the events of finance: `EventProjector` keeps the last
-- known state of every transaction (Analytics/Projector; Convergence and Replay are its theorems), and
-- `EventConsumer` hands it the messages of the stream and confirms them (Analytics/Consumer).
--   Analytics/Period
--                  domain/period.py; Shift, Printed and Days are its theorems.
--   Analytics/Facts, Report
--                  `load_facts`, and the contents of a monthly report (domain/report.py).
--   Analytics/Reports
--                  `ReportService`: the table of reports, its tasks and its queue. The renderer, the
--                  broker and the rows that other tasks hold are arguments.
--
-- Categorization (services/categorization-service) names a category for a description. Catalog,
-- Normalize and Search are the keywords, the normal form of a description and the search for whole
-- words of infra/categorizers.py, and Categorizers its three classes with the factory and the
-- service. The provider that the AI categorizer asks, and the tables of `unicodedata`, are arguments.
-- services/finance-service/infra/categorizers.py repeats the keyword categorizer.
--
-- Recommendation (services/recommendation-service) keeps a risk profile of each user and investment
-- plans that suit it: Recommendation/Risk is domain/risk_profile.py with `RiskProfileService`, and
-- Recommendation/Plans is domain/investment_plan.py with `InvestmentPlanService`.
--
-- Subscription (services/subscription-service) sells a premium plan: domain/subscription.py is
-- Subscription/Domain, services.py is Subscription/Service, and Paid, Calls and Reachable follow the
-- rule INV-05 through all calls. The gateway, a service outside, is an argument of `checkout`.
--
-- Amounts are whole cents, as `_coerce_amount` leaves them, and integers; dates are day ordinals,
-- instants are numbers, and identifiers are numbers, for the code only compares them. Texts are
-- lists of code points. Messages of exceptions are left out. The values that a call draws from
-- outside, new identifiers, the clock and the day, are its argument `Env`. Calls run one after
-- another: locks, and so the interleaving of two blocks, are not modelled, but for the rows of reports
-- that another task holds. The loops
-- recurse on their lists, and that of the relay on the rounds that its limit leaves; only the backfill
-- takes fuel, a number of rounds, and one round more than the transactions that it has to record is
-- enough. A checkout reads the clock once.
--
-- Not modelled: HTTP and Django glue, serialization, the front end, the dashboards, insights and
-- patterns of analytics, the exchange rates, projections and recommendations, and the other parts that
-- are not named above.
pub mod Base
pub mod Shared
pub mod Finance
pub mod Recommendation
pub mod Analytics
pub mod Categorization
pub mod Subscription
