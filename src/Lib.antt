-- ===== src/Lib.antt =====
-- Harpia API: the sale of units of real-estate developments, from the reservation of a unit to the
-- receivables and payables of its sale (TypeScript, NestJS services over a PostgreSQL database through
-- Prisma).
--
-- The program and the files that model it:
--   Store           the tables that the services share (prisma/schema.prisma), the audit log
--                   (src/audit/audit.service.ts) and the requests on them. `Store.Status`,
--                   `Store.Commercial`, `Store.Finance` and `Store.Tables` are the data; `Store.Monad`
--                   is a request, which reads and writes the database and may throw, with
--                   `$transaction` as the rollback of a callback that throws; `Store.Rules` is for what
--                   a request guarantees, with a rule for each way that requests are composed, and
--                   `Store.Success` for requests that end normally or throw. `Store.Checks` is the
--                   constraints on receivables and payables.
--   Table           queries and updates of a table as list functions, and the laws of counting rows;
--                   `Table.Single` is about updates of one row by a key.
--   Reservations    `create`, `cancel`, `convert`, `normalizeUnit` and `expireLockedUnit` of
--                   src/reservations/reservations.service.ts.
--   Opportunities   `applyOpportunityStageChange` of src/crm/opportunity-stage.ts, the single writer
--                   of the stage of an opportunity.
--   Proposals       `create`, `createVersion`, `send`, `reject`, `accept` and the expiry on reading of
--                   src/proposals/proposals.service.ts; accepting takes the unit over from the
--                   reservation and wins the opportunity through `Opportunities`.
--   Receivables     `generateForSale`, `splitAmount`, `recordPayment`, `reversePayment`, `cancel` and
--                   `syncSaleStatus` of src/receivables/receivables.service.ts; `Receivables.Ledger`
--                   is the account of paid amounts, payments and statuses that they share,
--                   `Receivables.Generation` the receivables of a payment plan;
--                   `Receivables.Keeps` says what the requests write, for any property of the tables;
--                   `Receivables.Totals` is about their amounts and `Receivables.Digits` about their
--                   descriptions; `Receivables.Display` is the status that is shown,
--                   src/receivables/receivable-status.ts and src/finance/payable-status.ts.
--   Ledger          debts and their payments, what receivables and payables have in common.
--   Payables        `create`, `update`, `recordPayment`, `reversePayment`, `cancel`, `markCommissionDue`
--                   and `syncSource` of src/finance/payables.service.ts; `Payables.Setup` is
--                   src/finance/financial-setup.service.ts, the default categories and cost centres,
--                   `Payables.Account` the account that payables share with receivables, and
--                   `Payables.Keeps` and `Payables.RowKeeps` say what the requests write;
--                   `Payables.Sources` is about what a payable comes from, `Payables.Updates` about
--                   changes that are refused.
--   Reconciliation  `import`, `candidates`, `match`, `unmatch`, `ignore` and `restore` of
--                   src/finance/bank-reconciliation.service.ts: statement entries are matched with
--                   the transactions that payments of receivables and payables post.
--   Adjustments     `calculate` and `apply` of src/monetary-adjustment/monetary-adjustment.service.ts,
--                   which change the adjusted amount of a receivable.
--   Cash            the finance services together: `Cash.Tables` is what they write, `Cash.Journal` the
--                   agreement of payments, transactions and statement entries, `Cash.Books` all that
--                   the tables have to agree on, `Cash.Requests` sequences of requests; `Cash.Balance`
--                   is the account of one amount that `Cash.Refinement` compares payables with.
--   Sales           `convertProposal`, `update` and `addCommission` of src/sales/sales.service.ts and
--                   `cancel` of src/sales/sale-cancellations.service.ts. A conversion reads the
--                   accepted proposal and its reservation, wins the opportunity, has the receivables
--                   of the plan generated and marks the unit as sold (`Sales.Conversion` has the
--                   checks, `Sales.Registration` the writes).
--   Visits          `create` and `update` of src/crm/visits.service.ts, with the plan of a change of
--                   src/crm/sales-visit-transition.ts in `Visits.Plan`.
--   Matching        the compatibility score of src/crm/unit-compatibility-score.ts.
--   Permissions     the permissions of each role and the guard, src/auth/permissions.
--   Dates           UTC dates and `addUtcMonths` of the same service.
--   UnitHolds       what a unit is promised to, over the tables of the services above:
--                   `UnitHolds.Accounts` is the balance of the statuses of units with reservations,
--                   proposals and sales; `UnitHolds.Reservations`, `UnitHolds.Proposals`,
--                   `UnitHolds.Sales` and `UnitHolds.Receivables` are about the services on it, and
--                   `UnitHolds.Requests` about sequences of their requests.
--   Tests           runs on a small database.
--
-- How the model stands to the code:
--   * Each service method is one definition in snake_case (`recordPayment` is `record_payment`); the
--     callback of its transaction has a name of its own where the method does more (`pay`, `refund`,
--     `draft`, `accept_locked`). Guards are `raise_if` and `or_raise` in the order of the code. The
--     exceptions are told apart by what they report, not by their text.
--   * `FOR UPDATE` locks the unit, proposal, receivable, payable or statement entry that a transaction
--     is about, so a transaction is taken as one step. A request is taken as one step too: what others
--     do between its first reads and its transaction is left out, but for a change of a payable, whose
--     check (`check_update`) and write (`write_update`) are definitions of their own. `handle_all` and
--     `serve_all` are any order of requests, of any tenants.
--   * Identifiers and instants are numbers, money is in whole cents, a text is the list of its code
--     points. A request reads the clock once, `now`; the identifiers of new rows are arguments, except
--     for rows that a loop or an upsert creates: receivables, statement entries, categories and cost
--     centres get the next free number from the model's database (`Table.Keys`), plans and commissions
--     of a sale consecutive ones. Percentages, and the prices and areas of a score, are
--     in hundredths; the percentages of an index are in units of 10^-4.
--   * Tables are lists of rows. `findFirst` without an order takes the first row of the list. The
--     prices of a unit stand latest first. An update by identifier changes every row that has it;
--     that identifiers are unique is a part of the invariants.
--   * The CHECK constraints of prisma/migrations are written out (`Store.Checks`, `check_rows`) where a
--     modelled write may violate them: the change of a payable, the adjustment of a receivable and the
--     import of a statement. Of the other writes a refusal only rolls back; theorems that such a write
--     succeeds have what the constraint asks for as a hypothesis.
--   * The unique indexes on active reservations and on sales are written out where a row is
--     inserted; the one on the source of receivables is not, since `generateForSale` looks for such a
--     row first. All receivables have the one source type that the code gives them. Metadata of audit
--     entries, the joined rows of a response, notes of proposal versions and the name of the price
--     table are left out.
--   * What the runtime computes is a parameter: the arithmetic of decimal factors (`Decimals`), and
--     hashes and the case, trimming and printing of texts (`Texts`), and the time of a date (`time_of`). The day of a statement entry is
--     the text of the request, which is taken to be a date.
--   * The upserts of the default categories and cost centres run at the same time in the code and one
--     after the other in the model.
--   * Recursion is structural throughout; the digits of a number take the number plus one as fuel,
--     and it has no more digits than that.
--
-- Not modelled: listings, summaries and reports, which only read; the messages after a request; the
-- texts of score factors and the queries of the match; activities; the payables of investor returns,
-- the maintenance of categories, cost centres, indices and adjustment policies; collections; sign-in
-- and the validation of request bodies; storage, mail and the start of the application.
pub mod Prelude
pub mod Dates
pub mod Table
pub mod Store
pub mod Ledger
pub mod Reservations
pub mod Opportunities
pub mod Proposals
pub mod UnitHolds
pub mod Receivables
pub mod Payables
pub mod Reconciliation
pub mod Cash
pub mod Adjustments
pub mod Tests
pub mod Sales
pub mod Visits
pub mod Matching
pub mod Permissions
