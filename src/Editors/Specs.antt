-- ===== src/Editors/Specs.antt =====
-- The editors of workload specs in pkg/mutation/editors. Numbers of pods and of seconds are natural
-- numbers; a policy that no code here looks into is one text.
pub mod Deployment
pub mod DaemonSet
pub mod ReplicaSet
pub mod StatefulSet
pub mod Job
pub mod CronJob
