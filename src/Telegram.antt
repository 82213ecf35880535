-- ===== src/Telegram.antt =====
-- go/internal/telegram: what the cards show.
pub mod Paging
pub mod Buttons
pub mod Poll
