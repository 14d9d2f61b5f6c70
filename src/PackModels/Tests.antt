-- ===== src/PackModels/Tests.antt =====
-- Witnesses for the theorems on the packs.
