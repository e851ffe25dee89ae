-- ===== src/Lib.antt =====
-- LOCK'IT: self-service luggage lockers. A customer holds a cell, books it, pays, opens it with a
-- code and ends the rental; administrators watch the cells and change them.
--
-- The program's parts, and the files that model them:
--
--   Prelude, Table, Strings   shared: Boolean tests, lists over the native numbers, integers; the SQL
--                             that the repositories write, over lists of rows; Go's strings.
--   Domain, Domain/Rules      internal/domain: statuses, entities, their methods.
--   Store                     the database of migrations/ as a record of tables, `(value, error)` as
--                             Result, and an operation as a function from a database to a result and
--                             the database it leaves; `transaction` is BeginTx with the deferred
--                             Rollback and the Commit.
--   Rental                    internal/repository/rental_flow_repository.go: Select (EnsureDemoData,
--                             CleanupExpiredSelections, CreateCellSelection), Book (CreateBooking),
--                             Pay (refreshPaymentStatus, GetPayment), Access (CheckAccessCode), Finish
--                             (OpenRental, FinishRental, GetRental), Locations (ListLockers), Ids
--                             (genID, genAccessCode). The children Outcomes, Cases, Choice and
--                             Entry say how each operation ends, Sweep what the clean-up leaves, and
--                             Selectable what the list of locations promises,
--                             Access/Races what others between the statements of CheckAccessCode can do.
--   Holding                   the invariant between storage_sessions and lockers, operation by
--                             operation, and over every run of the rental flow (Holding/Reach); the
--                             machine of a cell's status (Moves) and that each call makes one move of
--                             it (Lifecycle); and what a start of the server does (Restart:
--                             Strands to a demo cell that is held, Calm where nobody holds one).
--   Billing                   what happens to payments, and when a rental can be opened.
--   Service                   internal/service/rental_flow_service.go over Rental: Errors (AppError,
--                             mapRepoErr), Phone, Size, Flow (the methods); Numbers and Dates are what
--                             the services use of Go's strconv and time.
--   Panel                     internal/service/admin_service.go over
--                             internal/repository/admin_panel_repository.go: Filters, Cells
--                             (UpdateLockerStatus, ManualOpenLocker), Lists and Listing
--                             (ListLocationLockers), Locations (ListLocations), Detail
--                             (GetLockerDetail), Sessions (ListSessions), Revenue (RevenueByLocation,
--                             RevenueExport); Holds sets the changes of a cell against the invariant
--                             of Holding, and Races a change against a booking in between.
--   Auth                      internal/auth/middleware.go, internal/repository/admin_repository.go and
--                             Login and Me of internal/service/admin_service.go.
--   Http                      internal/transport/http: Customers (locker_handler.go) and Admins
--                             (admin_handler.go); Routes is the table of routes of cmd/api/main.go
--                             with the guard. Effects, Guard, Keeping and Runs say what requests do
--                             to the database, one by one and in sequence, and Honest that an answer's
--                             status agrees with what it carries. Payments is payment_handler.go.
--   Device                    internal/transport/device/device_handler.go.
--   Observability             internal/observability: Logger (logger.go), Middleware (the recorder and the
--                             middlewares of http_middleware.go, in the order of cmd/api/main.go),
--                             Replies (what a handler writes, and the probes), Recorded and Watched (what
--                             is recorded against what is sent), Answers (the interface of Http inside
--                             the middlewares), Ids (the two ids of a request).
--   Start                     main of cmd/api/main.go up to the server that listens: Settings
--                             (internal/config/config.go), Url, Cron (internal/cron), Serving (from the
--                             start to the answers).
--   Older                     from before the rental flow, which cmd/api/main.go does not wire: Lockers
--                             (locker_repository.go and locker_service.go), Sessions, Payments, Events
--                             and Commands (the repositories and services of these names).
--   Tests                     a small installation, and the theorems at it.
--
-- The parts meet in the database: the rental flow moves a session and its cell together, inside
-- one transaction each, the panel moves cells alone, and the services add the checks of arguments
-- and the codes of errors. A run of the rental flow is a sequence of steps (Step and Reach in
-- Holding/Reach), each with its own clock, ids and arguments; a step that ends a rental is for an
-- active one. Http puts all of it together: each request is served by its handler, over the service
-- and the repository, and a run of requests
-- and of ticks of internal/cron (Serves in Http/Runs) keeps the invariant of Holding.
--
-- Choices of the model:
--
--   - A table is a list of rows; where a query has no ORDER BY, the order is that of the list, which
--     no theorem fixes. A UNIQUE column is a check where a row is written.
--   - Each operation is one step, but for UpdateLockerStatus and CheckAccessCode, which run in no
--     transaction and whose statements Panel/Races and Rental/Access/Races take apart. Rows that another
--     transaction has locked, which SKIP LOCKED passes over, are the argument `skip`.
--   - A rollback also takes back the ids that were drawn from a table's sequence, which the database does
--     not: a later row may get such an id again. No other row has it.
--   - NOW() and time.Now() are two clocks, each read once for an operation, in microseconds. A time
--     that an answer formats by RFC 3339 stays a number.
--   - The draws of rand, and the ids made from them, are arguments.
--   - Texts are lists of ASCII bytes. The JSON of an event is the list of the values in it; the
--     sentence of an error is left out, its status, code and field are kept.
--   - An amount is a natural number, an id too; int64 is written out where a text is parsed
--     (Service/Numbers). Printing a number (Service/Numbers/Decimal) is on fuel, one more than the
--     number itself, which is enough since each digit divides the number by ten.
--   - A float64 is a parameter with a total order; parameters are also the packages jwt (IsJwt holds
--     what it documents), bcrypt and excelize, which writes the sheet of the export. A mean in that
--     sheet is the pair of the sum and the number.
--   - A request comes matched with its route by the package mux, and with its body decoded by
--     encoding/json or with the failure of that. An id of a path is an int64, which goes on as its 64
--     bits (word in Http): no row has a negative id.
--   - A handler is a function over any http.ResponseWriter, a record of its methods; IsConnection holds what
--     net/http documents of one, and IsHttpError what it does of http.Error. A panic is a way to end.
--   - What a TIMESTAMPTZ column makes of a whole number, and an int64 of such a column, is up to the
--     driver, a parameter of Older. JSONB is a parameter too.
--   - A lost connection is not modelled, nor is an error of the driver beyond those of a UNIQUE column
--     and of a NULL that is scanned into a plain variable.
--
-- Not modelled: the registration of the counters, the encoding of lines and answers as JSON, opening the
-- database and listening, which are calls of packages; the frontend.
pub mod Prelude
pub mod Table
pub mod Strings
pub mod Domain
pub mod Store
pub mod Rental
pub mod Holding
pub mod Billing
pub mod Service
pub mod Panel
pub mod Auth
pub mod Http
pub mod Older
pub mod Observability
pub mod Start
pub mod Device
mod Tests
