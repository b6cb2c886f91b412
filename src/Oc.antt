-- ===== src/Oc.antt =====
-- pkg/util/oc: the client of the cluster, each operation a command for the shell under a kubeconfig.
pub mod Kubeconfig
pub mod Retrying
pub mod Resources
pub mod Namespaces
pub mod Queries
pub mod Quoting
pub mod Services
pub mod Pods
pub mod Waiting
pub mod Decoding
pub mod Templates
pub mod Default
pub mod Onward
