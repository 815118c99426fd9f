-- ===== src/Topics.antt =====
-- server/src/topic_handler: the tree of topics with their subscribers.
pub mod Names
pub mod Tree
pub mod Subscribing
pub mod Publishing
pub mod Held
pub mod Matching
pub mod Delivery
pub mod Handler
