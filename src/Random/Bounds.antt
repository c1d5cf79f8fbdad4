-- ===== src/Random/Bounds.antt =====
-- Between which bounds the numbers of src/random.cpp are.
