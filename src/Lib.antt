-- ===== src/Lib.antt =====
-- Access control, billing, numbering, products and work reports of the business management system.
--
-- The program is a Django application; its rules stand in service modules over database tables.
-- This library models those services as functions on the tables, which are lists of records.
--
-- - users/permissions.py and users/models.py: Users. PermissionCode and PermissionSets are the codes and
--   the sets of codes, Models the membership and grant rows, Permissions the checks on codes and
--   discounts, Access the checks on requests and documents.
-- - billing/models.py: Billing/Models, the rows of documents, periods and subscriptions.
-- - billing/services.py: Billing. Errors has the messages; Totals `compute_totals`; Ledger the tables and
--   the paid, credited and remaining amounts; Documents `_resolve_*`, `_build_line_items` and
--   `_store_document`; ActionState what an invoice allows; Quotations the quotation lifecycle; Invoices
--   voiding; Credits credit notes and the settlement after them; Receipts `create_receipt_from_invoice`;
--   Coverage the windows of paid coverage; Calendar has dates and `add_months`, Subscriptions the amounts of
--   billing periods, `best_package_promotion` and `create_period`.
-- - work_reports/models.py and work_reports/services.py: WorkReports. Models has the rows and `clean`,
--   ServiceDays the work dates, Reports the lifecycle services; PaymentRows and PaymentChecks have the rows
--   of technician payments and their `clean`, Payments the services of single payments, Batches the
--   parts of a payment batch, BatchServices its services, Settlement what holds between any two calls.
-- - billing/numbering.py and inventory/numbering.py: Numbering. Documents has the counters and numbers of
--   billing documents, Purchases those of purchases, Search the loop of the latter.
-- - products/sku.py and products/creation.py: Products. Sku is the syntax of SKUs, Creation
--   `save_purchase_product`.
-- - Base: lists as query results (`filter` is a queryset's filter, `find` its first row, `update` its
--   update), tables with keys, integers, texts, rounding, results.
--
-- How the parts meet: work reports call the permission checks of Users with the acting membership; the
-- scoping of documents in Users reads the document rows of Billing; credit notes and receipts share the
-- balances of Ledger and the stored documents of Documents. A receipt may complete a stock sale, which
-- inventory/services.py does: the record `Inventory` stands for it, with any state and any answers.
-- Django's validation of single fields is the parameter `valid_fields` of the report and payment services,
-- `valid_batch` for batches, `valid_product` for products. Payments read the reports that they pay, and a
-- correction of a report reads the payments, so reports and payments share one store. What the database
-- and Python do with letters beyond ASCII is a parameter: `upper_wide`, `lower_wide`,
-- `db_normal`, `fold`.
--
-- Conventions: money is an integer number of cents and a tax rate or a quantity is an integer number
-- of hundredths; values in between are exact fractions, rounded where the code calls `quantize`, so
-- the 28 digits of the decimal context do not show. Dates are day numbers, but year, month and day in
-- Calendar, Subscriptions and Numbering; moments are numbers. Texts are lists of code points. A
-- service that raises returns an error and no tables, since its transaction is rolled back; a service
-- that succeeds returns its result and the new tables. A row lock has no counterpart: each call is one
-- step. One counter, `next_id`, gives the keys of all the tables of work reports, and the history of
-- payments is a table of its own. Loops are over lists, but two run on fuel: the search for a free
-- purchase reference, one round more than there are purchases, and the digits of a number, one more
-- than the number. `range(2)` in the allocation of SKUs is two calls. `%Y` writes a year without
-- leading zeros, as Python does on Linux. A period is created for
-- one month or more; the database refuses a negative number of free months.
--
-- Not modelled: snapshots, notes, sites and walk-in names on documents; lines with catalog products,
-- packages or promotions, which receipts and credit notes do not have, and with them the creation,
-- versions and conversion of documents; subscriptions, the invoices of periods and renewal; the
-- backfill of SKUs; stock and carts; messaging and outside integrations; views, forms, templates and
-- migrations.
pub mod Base
pub mod Users
pub mod Billing
pub mod WorkReports
pub mod Products
pub mod Numbering
