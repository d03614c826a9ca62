-- ===== src/Cli/Refresh/Rotation.antt =====
-- A refresh after a refresh.
