-- ===== src/Examples.antt =====
-- The theorems at concrete inputs, by the part of the program.
mod Scans
mod Manifests
mod Clients
mod Nodes
mod Handlers
mod Services
mod Utf8
mod Codecs
mod Digests
mod Systems
mod Repositories
mod Registries
