-- ===== src/Lib.antt =====
-- HIL controller: the job core of src/hil_controller. The controller runs jobs on boards ("devices")
-- behind USB hubs on several hosts. A job holds a lease on its device while a worker drives the
-- adapter; a device that fails is flagged in the database and probed again until it answers; and a
-- bisection submits one job for each firmware release that it tests.
--
-- Store          db/schema.sql: the tables hosts, devices, jobs and device_leases as lists of rows in
--                rowid order. A statement is a function from tables to tables.
--                Each module below names its source by its path under src/hil_controller.
-- Queue.Leases   queue/leases.py: acquire, release, renew, get_active_for_job, list_active, list_all
--                and startup_sweep, each one transaction from one `Db` to the next. It takes SQLite's
--                write lock before it reads (BEGIN IMMEDIATE in acquire, a single UPDATE elsewhere),
--                so an interleaving of callers is a sequence of these steps: `Exclusive.Step` and
--                `Exclusive.Reach`. `Locks` is what they promise: a lock manager that knows
--                the grants in force alone.
-- Queue.Worker   queue/worker.py: JobWorker.run and _run. An awaited call returns, raises an
--                Exception, or is where a cancellation arrives; the `World` decides which, for the
--                n-th call of the run, and the trace keeps the calls in order.
-- Queue.Scheduler  queue/scheduler.py: _run_job, which takes a lease, runs the worker and gives the
--                lease back; what happens to the tables meanwhile is a parameter.
-- Bisect         bisect.py: version keys, the list of releases, the window, the search, the verdicts
--                of the bench and the run that puts them together. The loops take fuel: the search
--                one round for each step between its ends, the collection of verdicts one for each
--                run and each retry; neither ever runs out. A run on the bench gives no verdict where an
--                httpx error escapes it.
-- Availability   availability.py and availability_reconciler.py: the retry policy, the record of
--                GET /v1/targets, one pass of the reconciler over the devices, with what others write
--                while it probes as a parameter, and a sequence of passes.
-- HostRecovery   host_recovery.py: the rows that a wedged or unreachable host leaves, the pass that
--                reboots the wedged hosts (the reboot, and what others write while it is awaited, are
--                parameters of it), and, in `Shell`, the
--                presence probes and the reboot as traces of commands.
-- Topology.Rename  topology/rename.py: the rename of a host or device in its table, in the columns
--                that refer to it and in the twin slots.
-- EspBridge      adapters/esp_usbip_bridge.py: the HTTP client of a USB/IP bridge and the power cycle of
--                one of its ports. The server is a parameter: it answers the n-th request. The state is
--                the list of requests so far. A deadline is the number of polls that it admits.
-- Auth           auth/tokens.py and auth/principal.py: require_auth and the rights of a Principal;
--                argon2's verify is a parameter.
-- Fingerprint    adapters/usb_fingerprint.py: the upsert of device_usb_ids and the run of learn, whose
--                awaited calls return, raise or are cancelled as the `World` says.
-- Journal        db/connection.py: the rows of jobs and the numbered events of a job. append_event
--                makes 10 attempts, and what other connections do within each is a parameter.
-- Jobs           api/jobs.py: the long poll for the events of a job and a client that follows its cursor; in
--                `Requests`, the extension and the cancellation of a job, with what others write
--                between their openings of the database as a parameter.
-- Twins          twins.py, twin_models.py, api/twins.py and db/twins.sql: the physical units. `Tables` has
--                the rows and the monad of a transaction, `Upserts` and `Ingest` the statements of an
--                observation, `Api` the requests, each committed or rolled back whole. The payload's
--                text and the new ids are parameters.
-- Usbip          adapters/usbip_bridge.py: the texts of usbip and of the vhci driver (`Parse`), and the use of
--                a device that a server lends to a client (`Bridge`), whose awaited calls return, raise or
--                are cancelled as the `World` says.
-- Prelude        what the others share: tests on numbers, lists, and SQL's reading of NULL. `Json`
--                holds JSON values and Python's readings of them.
-- Each part's `Tests` runs its definitions on concrete values.
--
-- Numbers are natural numbers; instants and spans are microseconds, the retry settings whole seconds.
-- Parameters stand for what lies outside these files: the replies of the awaited calls, the bench
-- that tests a release, the presence probe, the clock, fnmatch and argon2. `\d`, lower() and strip()
-- are read for ASCII, and a stored time carries its zone.
--
-- Not modelled: the rest of the HTTP layer and the web pages, the bench adapters and flashers, SSH and
-- subprocess transports, the dispatch loop of the scheduler, the event bus, the seeder and the drift
-- of the topology, the readings of a twin, its import and collectors, and the job profiles. A
-- cancellation during the release of learn's lease is left out, and so are the log lines everywhere.
pub mod Prelude
pub mod Store
pub mod Queue
pub mod Bisect
pub mod Auth
pub mod Availability
pub mod HostRecovery
pub mod Jobs
pub mod Journal
pub mod EspBridge
pub mod Fingerprint
pub mod Topology
pub mod Twins
pub mod Usbip
