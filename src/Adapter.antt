-- ===== src/Adapter.antt =====
-- adapter/: a second back end, which keeps its own history and talks to a WhatsMiau gateway over HTTP.
-- JSON is a tree: the decoder of encoding/json is outside, and `Json` is what it makes of a text.
pub mod Json
pub mod Store
pub mod Snapshot
pub mod Hub
pub mod Gateway
pub mod Webhook
pub mod Reply
pub mod Chats
pub mod Session
pub mod Content
pub mod Routes
pub mod Refusals
pub mod Upkeep
pub mod Handlers
pub mod Service
