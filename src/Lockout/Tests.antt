-- ===== src/Lockout/Tests.antt =====
-- A witness for the theorem on clearing failed logins.
