-- ===== src/Lib.antt =====
-- The state that the controller of the remote runner keeps for its users: a queue of jobs per
-- project, leases on machines that projects share, the plan of a dispatch batch, the authoritative
-- record of each run, and the view that is derived from them.
--
-- Scheduling.antt is src/remote_runner/_internal/scheduling.py. Machines.antt and
-- Machines/Identity.antt are the machine ids of src/remote_runner/_internal/controller/registry.py
-- and of machine_identity.py beside it. Queue/ is the queue of registry.py: Job and State are the
-- records and their validation (_validate_job, _validate_state), Store the reading of the queue,
-- Transition, Reserve, Update and Extend the operations on an entry. Lease/ is the leases and drains
-- of registry.py. Dispatch/ is the planning of src/remote_runner/_internal/controller/dispatcher.py:
-- Capacity decides whether a machine has room, Select which machines a job can get, Plan a batch
-- (_plan_dispatch_batch). Execution.antt is the run records of
-- src/remote_runner/_internal/execution_registry.py with enqueue_terminal_output of output_sync.py,
-- OutputPaths.antt is output_paths.py beside them, RunView.antt is _derive_phase of
-- controller/run_view.py with run_readiness.py. Prelude and its children, Text, Sort and Values are
-- shared helpers. Examples/ runs the theorems on concrete records.
--
-- How the parts meet: the dispatcher lists queued rows (list_queued), plans them on machines
-- (plan_dispatch_batch), takes a lease for each (acquire_dispatch_lease), moves the entry on
-- (transition_queued_state), and registers a run, whose updates (update_current_state) end in an
-- output to synchronize; the run view reads both records.
--
-- A directory of the source is a dictionary from file stems to contents, and an operation under a
-- lock is one step from one directory to the next. An exception is a value of Result; where the
-- source writes before it can raise, the store is returned beside the result. Times are
-- microseconds, a load is a count of hundredths, a prepared server has the fields that decide
-- something and some that are only passed on. The digest of a text is a parameter (sha256), as are
-- the records of other components that decide whether a lease is orphaned (Authority) and the tokens
-- that secrets gives. A lease's machine id that is empty is read as missing in the source; here it
-- is an Option.
--
-- Machines/Inventory.antt is the check of the file of machine identities
-- (_load_machine_identities_unlocked) and Machines/Enroll.antt the enrolment of servers
-- (_merge_legacy_machine, _ensure_machine_identities_unlocked). Capacities.antt is the file of slots
-- per machine, from _capacity_slots to update_server_capacity. Queue/Purge.antt has submit_job, the
-- run tombstones and the staging of entries, Queue/Purge/Derive.antt ensure_derived_job, with
-- Derivation.antt for src/remote_runner/_internal/derivation.py; Queue/Purge/Laws.antt gives the
-- steps of a queue with its tombstones, one for each of these operations and of those that edit an
-- entry. An entry of the queue is taken to stand under its job's run id and to hold both of its
-- files, as submit_job and ensure_derived_job write it; a directory whose job names another run,
-- which load_job does not refuse, is outside the model, and so is the second directory that an edit
-- of it would make. Writing an entry that is not there changes nothing in the model, and the
-- operations write only entries that they have read. The value of utc_now, time_ns and a generated
-- run id are arguments; a task's digest is a function that the operations take.
--
-- The one loop that needs fuel is the loop of a batch: each turn takes a row, so the number of
-- queued rows is enough. Every other function is by recursion on its list.
--
-- Not modelled: files, YAML, locks as such, SSH, tmux, git and rsync, threads, the web and command
-- line; the manifest of a run beyond what the intent of its output takes from it; the text of
-- messages, of which the parts are kept.
mod Prelude
pub mod Text
pub mod OutputPaths
pub mod Derivation
pub mod Sort
pub mod Values
pub mod Scheduling
pub mod Machines
pub mod Capacities
pub mod Queue
pub mod Lease
pub mod Dispatch
pub mod Execution
pub mod RunView
pub mod Examples
