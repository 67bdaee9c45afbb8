-- ===== src/Meshnet/Channels/Messages.antt =====
-- Messages over a channel, and after it was closed.
