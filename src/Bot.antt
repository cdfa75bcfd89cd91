-- ===== src/Bot.antt =====
-- services/bot: the sessions of the chats, the texts, the pages of a list, the client and the dialog.
pub mod Sessions
pub mod Text
pub mod Pages
pub mod Client
pub mod Dialog
pub mod Updates
