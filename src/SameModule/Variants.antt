-- ===== src/SameModule/Variants.antt =====
-- The files that belong to one module by their names.
