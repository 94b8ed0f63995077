-- ===== src/Tests/Errors.antt =====
-- Errors, allocation, comparisons and the swap, at concrete inputs.
