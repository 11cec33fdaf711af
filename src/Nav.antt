-- ===== src/Nav.antt =====
-- internal/ui/nav.go: moving the cursor, scrolling, opening and leaving chats, composing.
pub mod Window
pub mod Cursor
pub mod Chats
pub mod Search
pub mod Compose
pub mod Keys
pub mod Frame
pub mod Bounds
pub mod Rows
