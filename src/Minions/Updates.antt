-- ===== src/Minions/Updates.antt =====
-- db/api.py: the fields that `update_minion_pool` writes to the row of a pool.
use coriolis.Prelude.{ℕ, Bool, Option, none, some}
use coriolis.Minions.{Pool, Retention}

-- `updated_values`: the fields of the table that the model has, and `pool_shared_resources`, which is
-- asked for and which the table does not have. No shared resources are 0.
pub record Values : Type 0 where
  pub minimum_minions : Option ℕ
  pub maximum_minions : Option ℕ
  pub minion_max_idle_time : Option ℕ
  pub minion_retention_strategy : Option Retention
  pub shared_resources : Option ℕ
  pub is_linux : Option Bool
  pub pool_shared_resources : Option ℕ

abbrev pub no_values : Values
no_values = record {
  minimum_minions = none;
  maximum_minions = none;
  minion_max_idle_time = none;
  minion_retention_strategy = none;
  shared_resources = none;
  is_linux = none;
  pool_shared_resources = none;
}

abbrev pub value {ℓ} : {A : Type ℓ} → Option A → A → A
value none old = old
value (some new) old = new

-- `update_minion_pool`: a field that is not among `updateable_fields` is left out.
unfoldable pub update_fields : Values → Pool → Pool
update_fields v p = record p {
  minimum_minions = value v.minimum_minions p.minimum_minions;
  maximum_minions = value v.maximum_minions p.maximum_minions;
  minion_max_idle_time = value v.minion_max_idle_time p.minion_max_idle_time;
  minion_retention_strategy = value v.minion_retention_strategy p.minion_retention_strategy;
  shared_resources = value v.shared_resources p.shared_resources;
  is_linux = value v.is_linux p.is_linux;
}
