-- ===== src/Cancel/Tests.antt =====
-- A concrete run of a token.
