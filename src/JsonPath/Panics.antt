-- ===== src/JsonPath/Panics.antt =====
-- When extractValue panics.
