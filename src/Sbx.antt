-- ===== src/Sbx.antt =====
-- internal/sbx: sandbox-exec command lines and Claude Code tags.
pub mod Args
pub mod Tag
