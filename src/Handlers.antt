-- ===== src/Handlers.antt =====
-- The handlers of MessageManager (message_manager.cpp). Each gives whether the message was processed
-- (if not, it has to be queued again) and the node that it leaves.
pub mod Files
pub mod Sync
pub mod Links
