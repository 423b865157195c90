-- ===== src/App/Geometry/Runs.antt =====
-- The size theorems at a tablet's panel, and the wait after the seventh link without a hello.
