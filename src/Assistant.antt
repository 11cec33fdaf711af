-- ===== src/Assistant.antt =====
-- internal/ui/chat.go, chatview.go, chatlinks.go: the assistant tab.
pub mod Failure
pub mod Lines
pub mod Turns
pub mod Session
pub mod Keys
