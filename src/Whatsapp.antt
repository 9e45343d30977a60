-- ===== src/Whatsapp.antt =====
-- The WhatsApp module: src/modules/whatsapp. Each child models one service.
pub mod Connection
pub mod Auth
pub mod Queue
