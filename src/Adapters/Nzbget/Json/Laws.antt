-- ===== src/Adapters/Nzbget/Json/Laws.antt =====
-- laws
