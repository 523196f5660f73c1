-- ===== src/TopoOrder/Waits.antt =====
-- What the order is.
