-- ===== src/Oc/Default.antt =====
-- pkg/util/oc/oc.go: the functions of the package, which pass their arguments on to `DefaultOC`.
pub mod Manifests
pub mod Queries
pub mod Pods
pub mod Decoded
