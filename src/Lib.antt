-- ===== src/Lib.antt =====
-- A model of Inventra, an inventory service (Django and Django REST framework, Celery tasks), and
-- the theorems about it.
--
-- The program. `apps/accounts` has the users and their roles, `apps/catalog` the categories,
-- suppliers and products, `apps/inventory` purchase orders, sales orders, returns, write-offs and the
-- ledger of stock changes, `apps/notifications` the messages to users. A product keeps its stock in
-- a column, and every change of it also writes a row of the ledger: receiving a purchase order and
-- approving a return add, completing a sale and a write-off subtract. `apps/inventory/tasks.py`
-- compares the two every night. The promise of the program is that they agree, that no sale goes
-- below zero, and that no more is returned than was sold.
--
-- The files.
--   Session.antt: the state of one request (all tables, the callbacks of `transaction.on_commit`, the
--     count of identifiers drawn, the time), actions that return or raise, and loops over rows.
--   Django: Table.antt is the object-relational mapper, which is not part of the repository, as a
--     record of the calls the code makes, with the documented behaviour it relies on; Env.antt adds
--     `transaction.atomic` and `uuid.uuid4`; Rows.antt has tables of lists with that behaviour.
--   Http.antt: responses, with each `detail` text as a constructor.
--   Accounts/Models, Catalog/Models, Notifications/Models, Inventory/Models: the `models.py` files.
--   Notifications/Services: `apps/notifications/services.py` and `check_and_notify_stock`.
--   Inventory/Requests: the shared filters and validators of `apps/inventory/views.py` and
--     `serializers.py`. Inventory/Stock: the writes of a stock change.
--   Inventory/Purchases: `PurchaseOrderViewSet`. Inventory/Sales with Sales/Complete:
--     `SalesOrderViewSet`. Inventory/Returns: `ReturnViewSet`. Inventory/Damage:
--     `DamageWriteOffView`. A handler is a function with the handler's name; the body of its
--     `with transaction.atomic():` is the function ending in `_block`.
--     Sales/Sold says what a completed sale has made of the tables.
--   Inventory/Tasks: `reconcile_ledger` and `sweep_low_stock`.
--   Inventory/Ledger and the children of the files above: the proofs. Tests: a shop and runs there.
--   Accounts/Permissions, Accounts/Users, Accounts/Routes: `permissions.py`, `views.py` with
--     `serializers.py` and `UserManager`, and `urls.py` of `apps/accounts`. The checks of single
--     fields and the hash of a password are Django's and a parameter.
--   Catalog/Products: `apps/catalog/filters.py`, and the permissions and the soft delete of `views.py`.
--   Catalog/Editing: `ProductSerializer`, and `create` and `update` of `ProductViewSet`.
--   Core/Cache: `apps/core/cache.py`; Core/Invalidation and Core/Race are its proofs.
--   Inventory/Invoice: `generate_invoice_pdf`. Reports/Views: `apps/reports/views.py`, below its cache;
--     Reports/Totals and Reports/Counts are its proofs.
--   Notifications/Views: `apps/notifications/views.py`.
--   Core/Checks: `apps/core/checks.py`.
--   Concurrency/RowLock: the lock of a row, a parameter, with one that behaves so. Concurrency/Stock:
--     overlapping requests on one product, a step for each query of the handler (`query`), and a
--     schedule (`run`). Concurrency/Locks: the rows that each handler of `apps/inventory/views.py`
--     locks, in its order. The other files of Concurrency are proofs.
--   Demo/Random: Python's random generator, a parameter, and Demo/Fixed one that behaves so.
--     Demo/Seeds, Demo/Outgoing and Demo/Orders: the command `seed_demo`, without the flush and the
--     rows of categories, suppliers and users. The other files of Demo are proofs.
--   LoadTest/Reset: `apps/catalog/management/commands/reset_loadtest_stock.py`.
--   Session/Keeps: rules for actions that take the tables only to states in a given relation.
--   Api/Requests: the requests that change orders, returns, stock and products as steps, and steps one
--     after another. The other files of Api are proofs.
--   Inventory/Transactions: `InventoryTransactionViewSet` of `apps/inventory/views.py`.
--
-- Choices. A UUID is a natural number; a price is in whole cents, as the columns have two decimal
-- places; a quantity or a stock is an integer with the range of its column, outside which the
-- database raises. A time is a number and stands still during a request. `raised` ends a handler the
-- way an uncaught exception does, and `atomic` undoes what its block wrote. The loops are over lists,
-- so no fuel is needed.
--
-- Not modelled: logging and its timings, the texts of validation errors, the layout of the invoice
-- PDF, the admin site, settings, migrations, the front end, the traffic of the load test with its
-- tokens, and the flush of the demo data. Overlapping requests are modelled for orders with
-- a single line of the product.
pub mod Prelude
pub mod Session
pub mod Http
pub mod Django
pub mod Accounts
pub mod Catalog
pub mod Core
pub mod Notifications
pub mod Inventory
pub mod Api
pub mod Concurrency
pub mod Demo
pub mod LoadTest
pub mod Reports
pub mod Tests
