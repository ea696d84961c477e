-- ===== src/Lib.antt =====
-- MOCO is a Kubernetes operator for MySQL clusters. This library models the part that keeps a
-- cluster of semi-synchronous replicas alive: the loop of one manager process, which gathers the
-- status of a cluster, decides its state and acts on it; the webhook that admits a cluster; the
-- controllers of its rolling updates and of its volumes; and the jobs that back it up and restore it.
--
-- The parts, and the files that model them (paths from the repository's root):
--
--   Api/Names, Api/Cluster, Api/Pod   the resource names and the fields of MySQLCluster and Pod that
--       the loop reads or writes (api/v1beta2/mysqlcluster_types.go).
--   Dbop/Types, Dbop/TopRunner        the status of an instance, and FindTopRunner
--       (pkg/dbop/types.go, pkg/dbop/gtid.go).
--   Effects                           the calls of MySQL, moco-agent and the Kubernetes API.
--   Clustering/StatusSet, Clustering/Decide   StatusSet and DecideState (clustering/status.go).
--       Decide/Meaning states what each state says of the fields of a cluster, and Decide/Reading the
--       same in terms of the code's tests, as the step between the two.
--   Clustering/Gather                 GatherStatus (clustering/status.go).
--   Clustering/Roles, Switchover, Failover, Configure   the operations (clustering/operations.go).
--   Clustering/Manager                the map of processes (clustering/manager.go).
--   Clustering/Process                updateStatus and do (clustering/process.go).
--   Controllers/Partition             the controller of the StatefulSet's partition, which restarts the
--       pods one by one in a rolling update (controllers/partition_controller.go).
--   Controllers/Pvc                   the labels, annotations and sizes of volume claims
--       (controllers/pvc.go).
--   Api/Validation                    the webhook, with Updates for changes and Ids for the defaults
--       (api/v1beta2/mysqlcluster_webhook.go, api/v1beta2/mysqlcluster_types.go).
--   Mycnf                             the generator of my.cnf, with its tables of options
--       (pkg/mycnf/generator.go).
--   Password                          the Secrets of passwords (pkg/password/password.go).
--   Backup/Choice, Backup/Run         ChoosePod and Backup (backup/backup.go, backup/key.go,
--       pkg/bkop/binlog.go).
--   Backup/Nearest, Backup/Restore    FindNearestDump and Restore (backup/restore.go).
--
-- The parts meet in the resource: a restoration sets the time that the loop waits for in the state
-- Restoring, the webhook keeps the number of replicas odd and the server ids positive, which the loop
-- counts on, and a backup stores its binlogs beside the dump of the backup before it, where the search
-- for the nearest dump expects them.
--
-- State and results. A computation takes the trace of the calls made so far and returns a value, a
-- Go error or a panic, with the longer trace. A nil pointer is `none`; reading through it, or through
-- an index out of range, is a panic. The environment answers each call from the trace, so it may answer
-- in any way and change its mind: a theorem over all environments holds for every behaviour of the
-- servers, between the calls included. An instance, and its database connection, is named by its
-- index in the StatefulSet.
--
-- Helpers. Effects/Triple is a logic for the three ends of a computation, Effects/Only derives from it
-- which calls are made, Effects/Order what stands in a trace before a call, Effects/Ends what is
-- returned, and Effects/Safe that nothing panics.
--
-- Bounds. The wait after a clone runs for at most 60 rounds, a status is read at most 3 times, and a
-- restoration waits for at most 600 rounds each for its pod and for mysqld, as in the source. `retry.RetryOnConflict` calls its function as often as the environment says. The other
-- loops are recursions over slices.
--
-- What is not modelled: sleeps, logs and metrics gauges; the ticker and the channel of
-- `(*managerProcess).Start`; the goroutines that read the instances run in the order of their indices;
-- numbers of replicas, server ids and indices are natural numbers, with the sum of int32 values wrapped
-- where the source adds them. `meta.SetStatusCondition`, `equality.Semantic.DeepEqual`, `strconv` and
-- the decoding of the password Secret in the loop are parameters, and so are the packages path and
-- time of the restoration, cron expressions and random numbers. The reconciler of the other resources, the bucket backends, the commands and the generated code are left out.
pub mod Prelude
pub mod Api
pub mod Effects
pub mod Dbop
pub mod Clustering
pub mod Controllers
pub mod Password
pub mod Backup
pub mod Mycnf
