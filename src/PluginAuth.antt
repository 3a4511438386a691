-- ===== src/PluginAuth.antt =====
-- src/nomothetic/plugin_auth.py: the names of plugins, the store of their public keys, and the
-- challenges that they sign.
pub mod Names
pub mod Keys
pub mod Challenges
mod Examples
