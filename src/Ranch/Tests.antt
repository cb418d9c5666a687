-- ===== src/Ranch/Tests.antt =====
-- Ranches at concrete inputs.
