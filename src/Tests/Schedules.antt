-- ===== src/Tests/Schedules.antt =====
-- An installation and an uninstallation on a host where everything succeeds.
