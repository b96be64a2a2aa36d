-- ===== src/Channels.antt =====
-- The channels package, packages/codegen-kit-tg-channels/codegen_kit_tg_channels: subscriptions and the
-- outbox of new posts in `Store`, the poll of the platform in `Poller`.
pub mod Store
pub mod Poller
pub mod Service
mod Tests
