-- ===== src/Conductor/Env.antt =====
-- What the conductor of conductor/rpc/server.py does not decide itself.
use coriolis.Prelude.{ℕ, Bool}

-- How an attempt to start a task ends: the scheduler finds no worker service, the `begin_task`
-- message to the worker raises, or the message is sent.
pub data Start : Type 0 where
  no_worker cast_failed accepted : Start

pub record Env : Type 0 where
  -- The n-th request, for a task.
  pub start : ℕ → ℕ → Start
  -- Whether the cancellation request reaches the task's worker.
  pub cancel_sent : ℕ → ℕ → Bool
  -- Whether the action of the execution and its endpoints are in the database.
  pub endpoints_found : Bool
  -- `ctxt.delete_trust_id`
  pub delete_trust_id : Bool
  -- `CONF.conductor.debug_os_morphing_errors`
  pub debug_os_morphing_errors : Bool
  -- Whether there is a licensing client and the action has a reservation.
  pub has_reservation : Bool
  -- `schemas.validate_value` with the schema of the VM export info.
  pub is_valid_export_info : ℕ → Bool
