-- ===== src/Platform/Admin/Laws.antt =====
-- What an action link is made of.
