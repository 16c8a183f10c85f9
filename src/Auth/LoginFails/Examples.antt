-- ===== src/Auth/LoginFails/Examples.antt =====
-- Runs of the failure counter.
