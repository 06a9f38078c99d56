-- ===== src/Connection/Responses/Laws.antt =====
-- x
