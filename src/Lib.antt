-- ===== src/Lib.antt =====
-- msgate, an SMTP gateway to Microsoft Exchange: clients hand messages over by SMTP, the gateway
-- keeps them in a database table as a queue, and worker threads deliver them through a mail
-- driver. This library models the path of a message from the client to the driver, the sessions of
-- the administrator in the web interface, the watcher of the queue, the configuration with its
-- secrets, the digests and the log files, and states what these parts promise.
--
-- The parts and their files. Config is the validated configuration (src/msgate/schemas). Smtp is
-- what a client meets: Smtp.Sanitize the names of users (src/msgate/auth/sanitize.py), Smtp.Access
-- the allowlist of relays (src/msgate/smtp/access.py), Smtp.Authenticator the command AUTH
-- (src/msgate/smtp/authenticator.py), Smtp.Handler the commands RCPT and DATA
-- (src/msgate/smtp/handler.py). Queue is src/msgate/queue: Queue.Service accepts messages or
-- defers them, Queue.Repository is the table and its statements, Queue.Worker claims rows and
-- delivers them until nothing is ready, Queue.Processor makes one attempt, Queue.Backoff decides
-- whether and when to try again, and Queue.Breaker is the circuit breaker that the workers and the
-- service share. Drivers is src/msgate/drivers, Events the event hub and the webhooks
-- (src/msgate/events/hub.py, src/msgate/observability/webhooks.py), Metrics the counters
-- (src/msgate/observability/metrics.py). Tls is src/msgate/tls: the profiles, the cache and the
-- negotiation of TLS with Exchange. Queue.Threads puts any number of workers, accepting threads
-- and restarts over one table and interleaves their steps. Ews.Mailbox is the choice of the
-- sending mailbox (src/msgate/ews/mailbox.py), Ews.Compose the Exchange message that is made of a
-- MIME message, and Ews.Client its sending with the accounts that a thread keeps
-- (src/msgate/ews/client.py, src/msgate/ews/account_cache.py). Http is the prefix of paths behind
-- a proxy (src/msgate/http/root_path.py). Auth is the web's: Auth.Passwords, Auth.Admin and
-- Auth.Session (src/msgate/auth/passwords.py, admin.py, session.py), Auth.Gate the gate before the
-- routes (src/msgate/auth/web_middleware.py), Auth.Routes the pages of setup, login and change of
-- the password (src/msgate/api/routes/auth_ui.py). Ops.Capacity tells how loaded the gateway is
-- (src/msgate/ops/capacity.py), Ops.Watcher publishes it and decides on alerts
-- (src/msgate/ops/watcher.py), and Ops.AlertMail sends them (src/msgate/ops/alert_mail.py).
-- Config.Validation is what pydantic makes of the models of src/msgate/schemas/config.py,
-- Config.Store the stored configuration with its secrets (src/msgate/config/store.py, export.py),
-- Config.Environment the one that a start finds (src/msgate/config_load.py,
-- src/msgate/config/load.py), and Api.Settings the routes of src/msgate/api/routes/config.py. The
-- other modules of Api are routes as well: Sending the test messages (src/msgate/api/backend.py,
-- routes/messages.py, routes/tools.py), Traffic the socket of events (routes/ws.py), Dashboard the
-- figures and the readiness (stats.py, routes/health.py), Account the forms of alerts and digests
-- (routes/ui.py). Ops.Digest is the digests: Report the figures and the lines
-- (src/msgate/ops/digest_report.py), Pdf the document (digest_pdf.py), Mail its sending
-- (digest_mail.py), Schedule the markers and the ticks (digest_state.py, digest_scheduler.py).
-- Crypto is the encryption of secrets with its key (src/msgate/crypto/secrets.py), whose box
-- Crypto.Boxes gives the queue and the configuration. Logs reads, searches and purges the log
-- files (src/msgate/observability/log_reader.py, log_retention.py). Modules below a component hold
-- its lemmas; Scenarios holds the concrete runs.
--
-- How the parts interact. handle_data asks the authenticator and the allowlist, then
-- check_backpressure and accept_smtp of the service, which call count_pending and insert_message
-- of the repository. drain asks the breaker, calls claim_next, hands the row to process_row, and
-- reports the status in which the row is left to the breaker. process_row reads the row through
-- the secret box (src/msgate/crypto/secrets.py), calls the driver, and settles the row with
-- mark_sent, mark_retry or mark_failed. Each of them publishes events to the hub, which counts
-- them in the metrics. ews_client gives the drivers their client. dispatch reads the cookie with
-- load_session, and the routes change the table of administrators and the session, of which the
-- next cookie is made. put_config merges what a client sends into the running configuration, tries
-- TLS with it, and saves and installs it. A tick of the digests loads its markers, collects a
-- report of the table, sends it through the drivers and saves the marker. tick of the watcher
-- reads the table and the breaker, publishes to the hub and sends alerts through the driver.
--
-- How state is modelled. A component's state is a record, and an operation takes it and gives the
-- new one. The table is the list of its rows, and a commit is a change of that list. The world
-- that a driver reads and changes is a type parameter that is passed along. Exceptions are
-- results; readings of clocks, random draws and the environment are arguments. Texts are lists of
-- code points, times are microseconds, those of sessions and delays whole seconds.
--
-- Parameters: exchangelib with its accounts and their sends, the email package, Python's ssl
-- module with the adapter that exchangelib uses, urlparse and parseaddr, Python's ipaddress, the
-- Unicode table of word characters, repr, the subject that the email package reads from a message,
-- scrypt, HMAC, UTF-8 and JSON with the laws that a digest has the length asked for and that a
-- printed session is read back, urllib's quote, pydantic's checks of URLs and addresses with the
-- laws that a checked value is checked to itself and is not blank, the JSON of bundles and of the
-- digests' markers with the law that a printed marker is read back, the dates that datetime
-- prints, Python's Unicode tables for log files, AES-GCM, SHA-256 and random draws, and the secret
-- box, which Crypto fills, with the laws that a decryption gives back what was encrypted and that
-- a blank token stands for a blank text. Fuel: drain takes fuel for its rounds, and one more than
-- the attempts that the rows have left is enough, since each round that works uses up one of them.
--
-- Not modelled: the network, starting and joining threads (a method under a lock is one step), the
-- other routes of the HTTP API and the templates, the making of ssl contexts, the JSON of the
-- settings of alerts, and the writing of logs.
pub mod Prelude
pub mod Config
pub mod Metrics
pub mod Events
pub mod Drivers
pub mod Queue
pub mod Smtp
pub mod Tls
pub mod Ews
pub mod Api
pub mod Crypto
pub mod Logs
pub mod Ops
pub mod Auth
pub mod Http
pub mod Scenarios
