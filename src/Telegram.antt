-- ===== src/Telegram.antt =====
-- internal/platform/telegram: splitting of long texts and of rich messages, the mapping of messages
-- between Telegram and the domain, and the way out of a message.
pub mod RichBlock
pub mod RichSplit
pub mod RichLine
pub mod RichParse
pub mod TextSplit
pub mod Entities
pub mod Media
pub mod Updates
pub mod RichOutbound
pub mod Peers
pub mod History
pub mod Wizard
pub mod Outbound
pub mod SendMedia
