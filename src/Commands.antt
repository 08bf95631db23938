-- ===== src/Commands.antt =====
-- compact-js/compact-js-command/src/effect: the commands of compact-js, their configuration and files.
pub mod Config
pub mod Files
pub mod Handlers
pub mod Maintain
