-- ===== src/Gui.antt =====
-- pkg/gui/transformation: the editor of event transformations. The views and keys are not here.
pub mod Process
pub mod Cursor
pub mod Input
pub mod Sanitize
pub mod Rearrange
