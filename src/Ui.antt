-- ===== src/Ui.antt =====
-- include/ui and src/ui.
pub mod ScrollView
pub mod Table
pub mod Inspect
pub mod Screen
pub mod Colors
pub mod Interfaces
pub mod Templates
pub mod Popup
pub mod Tui
pub mod Drawing
