-- ===== src/Random/Examples.antt =====
-- The theorem on src/random.cpp at a concrete seed.
