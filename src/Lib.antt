-- ===== src/Lib.antt =====
-- Novena Hub: governed remote control of industrial equipment through Gateways.
--
-- A user, an automation or the system asks for a command. The request is checked against the roles
-- of the team, the state of the team and the Gateway, and the control envelope of the device; it is
-- stored with a hash-chained log, and queued, sent for approval, or denied. A dispatcher claims the
-- outbox row of a queued command under a lease, checks the authority of the command again, signs and
-- publishes it, and records the answer of the broker; reports of the Gateway then move the command
-- through its statuses; an answer whose verification finds another value than was written suspends
-- the key. Control itself is prepared by an assessment, a commissioning session and the
-- activation of a key, and is ended by an emergency stop, a rollback or a reset, each of which raises
-- the control epoch of the team.
--
-- Beside it, settings are queued for a Gateway as signed revisions, sent while its heartbeat is fresh,
-- and acknowledged by their identity; a Gateway is released when its reset is confirmed and its
-- credentials are revoked, which cancels its commands and deletes its settings; and the readings of
-- a device, as long as they are fresh, raise and resolve alerts.
--
-- Files:
--   Prelude, Prelude/Tests, Prelude/Lists: Boolean tests on native numbers and strings, list helpers.
--   Json: the documents that the models store.
--   Teams/Types, Teams/Roles: apps/teams/models.py and apps/teams/roles.py, has_permission.
--   RemoteControl/Types, Governance: the rows of apps/devices/models.py.
--   RemoteControl/Catalog, Events, Transition, Request, Revalidation, Dispatch:
--     apps/devices/remote_control.py. Request is request_remote_command (its checks; Request/Record
--     its writes; Request/Submit the whole). Dispatch/Claim is the first transaction of
--     dispatch_outbox, Dispatch/Record the signature and the transactions that follow the broker's
--     answer, and dispatch_outbox their composition. Lifecycle is the relation of all transactions.
--   RemoteControl/Protocol: apps/devices/remote_control_protocol.py.
--   Readiness/Assessment, Activate, Approve, Suspend: apps/devices/control_readiness.py, and in
--     Suspend also apps/devices/control_recovery.py.
--   Envelope (Int, Value): apps/devices/control_governance.py, _intersect_limits and
--     validate_control_value.
--   RemoteControl/Response: _handle_rpc_response of
--     apps/telemetry/management/commands/mqtt_consumer.py, with sync_device_command_from_rpc of
--     apps/devices/services.py and check_rpc_timeouts of apps/devices/tasks.py (Response/Sync);
--     its _handle_attributes, with the reconciliation of a gateway's journal
--     (Response/Reconcile) and the acknowledgement of a policy (Response/Policy).
--   Freshness: apps/devices/freshness.py and the heartbeat tasks of apps/devices/tasks.py.
--   Subscriptions: apps/subscriptions/enforcement.py, and ProductMetadata of metadata.py.
--   Gateways/Delivery: apps/devices/gateway_config_delivery.py. Queue, Dispatch and Acknowledge are
--     its transactions, Validate its checks, and Steps the relation of all transactions.
--   Gateways/Release: apps/devices/gateway_release.py. Release has the request, the receipt of a
--     reset and the retry, Release/Dispatch the attempts, Release/Finalize the last transaction.
--   Alerts: apps/alerts/services.py, Alerts/Window its evaluation of a condition.
--   Tests: fixtures, runs and instances.
-- The files below a component hold its proofs.
--
-- Conventions. A function of the source has its name here, without a leading underscore or an
-- ending that names a lock. A table row is a record of the columns that the code reads or writes;
-- the rows that belong to one command (events, newest first; outbox; attempts, newest first;
-- approval) are nested in `CommandRow`. Keys are numbers. Times and delays are microseconds; one
-- transaction reads the clock once, as an argument. The two decimals of an assessment are counted
-- in hundredths, limits and control values in millionths, as far as these resolve them. A refusal
-- keeps its code and its text. `@transaction.atomic` is `atomic`: what a body has written before it
-- raises is dropped. SHA-256 over canonical JSON is a parameter (`digest` of an event, `checksum`
-- of an approval), and nothing is assumed of it but where a theorem says so. What the broker and
-- the signature do is an `Outcome`, and the reports that a Gateway sends while a message is
-- published are a list of requests to `transition_command`. `decimal` is how Python reads a number
-- from a text, `to_float` how it converts a value to a float, and `rounded` how `float` rounds a number, of which a
-- theorem that needs it assumes that it is monotone.
--
-- Recursion is structural. Only the decimal digits of an elapsed time count down a fuel, of twenty
-- digits, where the days since the year 1 have seven.
--
-- Not modelled: the resolution of a register and the queries for the effective envelope (their
-- outcome is an argument of the request), the signed policy bundle, snapshots that are stored and
-- never read again, the selection of due rows by `dispatch_due_outboxes`, the crypto and MQTT
-- libraries, the mails, web hooks and tickets of an alert, the order and the limit of the sweeps over due
-- rows, and the other parts of the repository, which are database queries, pages and calls of outside
-- services, or are yet to come.
pub mod Prelude
pub mod Json
pub mod Teams
pub mod RemoteControl
pub mod Readiness
pub mod Envelope
pub mod Freshness
pub mod Gateways
pub mod Alerts
pub mod Subscriptions
pub mod Tests
