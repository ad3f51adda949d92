-- ===== src/Lib.antt =====
-- The task conductor and the minion manager of Coriolis, which migrates virtual machines between
-- clouds.
--
-- A migration or a replica execution is a graph of tasks (coriolis/db/sqlalchemy/models.py). The
-- conductor (coriolis/conductor/rpc/server.py) starts each task on a worker service once its
-- parents allow it, takes the reports of workers, and cancels an execution on an error or on
-- request. Each request holds the lock of its execution, so requests about one execution run one
-- after another; what a request has written stays written if it raises.
--
-- - Prelude: tests, dictionaries, predicates on lists. Action: statements that write to a store and
--   may raise.
-- - Constants: coriolis/constants.py, the statuses and task types.
-- - Db: coriolis/db/api.py and db/sqlalchemy/models.py, the rows of one execution (`Store`) and the
--   calls that read and write them. Identifiers are primary keys (`IsDistinct`).
-- - Conductor/Status: `_get_execution_status`, `_set_tasks_execution_status` and
--   `_check_clean_execution_deadlock`. Conductor/Advance: `_advance_execution_state`.
--   Conductor/Cancel: `_cancel_tasks_execution`. Conductor/PostTask: `_handle_post_task_actions`.
--   Conductor/Handlers: `set_task_host`, `set_task_process`, `task_completed`,
--   `confirm_task_cancellation`, `set_task_error`. Conductor/Create: `_create_task`,
--   `_begin_tasks`. Conductor/Sanity: `_check_execution_tasks_sanity`. Conductor/Plans: the tasks
--   of each kind of execution (`execute_replica_tasks`, `migrate_instances` and so on).
--   Conductor/Rpc: the requests, one after another.
-- - Tasks: coriolis/tasks, what the class of each task type requires of the task info and returns.
-- - Scheduler: coriolis/scheduler/rpc/server.py and filters/trivial_filters.py, which find the
--   worker services for a task's requirements.
-- - Cron: coriolis/cron/cron.py, the schedules of jobs and their registry.
-- - Minions: coriolis/minion_manager, the pools of machines that do the work of actions, and their
--   rows (db/api.py). From rpc/server.py, Minions/Allocate:
--   `_make_minion_machine_allocation_subflow_for_action`. Minions/Transfer:
--   `_run_machine_allocation_subflow_for_action` and its callers. Minions/Select:
--   `validate_minion_pool_selections_for_action`. Minions/Release:
--   `deallocate_minion_machines_for_action`. Minions/Refresh: `_get_minion_pool_refresh_flow`.
--   Minions/Jobs: the refresh jobs, which are jobs of Cron. Minions/Requests: the requests about
--   one pool. Minions/Flows: the flows of a pool, with the tasks on pools of rpc/tasks.py.
--   Minions/Updates: the fields of a pool that db/api.py updates.
-- - Conductor/Steps: the changes of one row that the conductor makes by itself, as a relation, and
--   the proofs that its operations make no others. Conductor/Rpc/Events: those and the changes that
--   reports of workers lead to. Conductor/Samples: an example.
--
-- Texts and identifiers are numbers, 0 the empty text; a value of the task info that is false in
-- Python is 0. Other services are the parameter `Env`: whether the n-th request finds a worker and
-- reaches it. Copies of an execution that the code reads again at its entry are the store itself.
-- Calls of the database and requests to free minions succeed, as do calls that create trusts. A
-- failed start cancels the execution, which may start other tasks: this recursion has fuel, the
-- number of tasks that are scheduled or wait for an error, and one more. The check of the tasks of
-- an instance has fuel for as many rounds as there are tasks. The check takes what the classes of
-- tasks require and return as the parameter `runner`, which is the table of Tasks where the tasks
-- of an execution are checked. The tasks of an instance are numbered as they are created, and
-- `uuid` gives their identifiers; they depend on tasks of the same instance only.
--
-- The identifiers of new machines, the rows that the database refuses and the time are parameters
-- of the minion manager (`Outside`). A flow runs its tasks in order, and where one fails the engine
-- of the taskflow library reverts it and those that have run, the last one first. Whether the workers
-- do what a task of a flow asks of them is the parameter `Worker`, and so is whether they delete a
-- machine whose deployment is reverted: if not, the revert raises and the engine reverts no more. The
-- failures of other cleanups are only logged. Whether keystone deletes a trust is part of
-- `RequestEnv`. The conductor answers calls for endpoints, and the identifier of an action is not empty.
--
-- Not modelled: log messages and the texts of errors, the REST API, the tasks on single minion
-- machines, events and progress updates, the worker
-- processes, what the tasks run with the providers.
pub mod Prelude
pub mod Constants
pub mod Action
pub mod Db
pub mod Conductor
pub mod Tasks
pub mod Minions
pub mod Scheduler
pub mod Cron
