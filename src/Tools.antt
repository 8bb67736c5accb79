-- ===== src/Tools.antt =====
-- src/order_service/tools: the command-line tools.
pub mod DlqReplay
