-- ===== src/Renderer.antt =====
-- pkg/engineconfig/{unbound,coredns,powerdns}/renderer.go, a module for each; Normal, Compat and
-- Names have the lemmas on their normalisations and checks. Registry has their registration, and
-- Supported the pools that each takes.
pub mod Unbound
pub mod CoreDns
pub mod PowerDns
pub mod Normal
pub mod Compat
pub mod Names
pub mod Registry
pub mod Supported
