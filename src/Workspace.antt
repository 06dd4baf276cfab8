-- ===== src/Workspace.antt =====
-- The tabs of the pages (AYLink.Web/src/features/workspace, features/apps and features/files).
pub mod Tabs
pub mod Keys
pub mod Pages
pub mod Saved
pub mod Paths
pub mod Normal
pub mod Apps
pub mod Files
pub mod Browsing
pub mod Tests
pub mod Neighbours
