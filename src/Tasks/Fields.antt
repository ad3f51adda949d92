-- ===== src/Tasks/Fields.antt =====
-- coriolis/tasks: the names of the fields of a task's info, as numbers. Those that the conductor reads
-- after a task stand in Conductor/PostTask.
use coriolis.Prelude.{ℕ}
use coriolis.Conductor.PostTask.{Side, origin, destination, osmorphing}

abbrev pub source_environment : ℕ
source_environment = 10

abbrev pub target_environment : ℕ
target_environment = 11

abbrev pub export_info : ℕ
export_info = 12

abbrev pub source_resources : ℕ
source_resources = 13

abbrev pub source_resources_connection_info : ℕ
source_resources_connection_info = 14

abbrev pub target_resources : ℕ
target_resources = 15

abbrev pub target_resources_connection_info : ℕ
target_resources_connection_info = 16

abbrev pub instance_deployment_info : ℕ
instance_deployment_info = 17

abbrev pub os_morphing_resources : ℕ
os_morphing_resources = 18

abbrev pub osmorphing_info : ℕ
osmorphing_info = 19

abbrev pub osmorphing_connection_info : ℕ
osmorphing_connection_info = 20

abbrev pub user_scripts : ℕ
user_scripts = 21

abbrev pub pool_environment_options : ℕ
pool_environment_options = 22

abbrev pub pool_shared_resources : ℕ
pool_shared_resources = 23

abbrev pub pool_identifier : ℕ
pool_identifier = 24

abbrev pub pool_os_type : ℕ
pool_os_type = 25

-- `<side>_minion_connection_info`
abbrev pub minion_connection_info : Side → ℕ
minion_connection_info origin = 30
minion_connection_info destination = 31
minion_connection_info osmorphing = 32

abbrev pub destination_minion_backup_writer_connection_info : ℕ
destination_minion_backup_writer_connection_info = 33

-- The fields of the tasks on a machine of a pool, `minion_provider_properties`,
-- `minion_connection_info` and `minion_backup_writer_connection_info`.
abbrev pub own_minion_provider_properties : ℕ
own_minion_provider_properties = 34

abbrev pub own_minion_connection_info : ℕ
own_minion_connection_info = 35

abbrev pub own_minion_backup_writer_connection_info : ℕ
own_minion_backup_writer_connection_info = 36
