-- ===== src/Editor.antt =====
-- src/tools/search_replace_editor.py: SearchReplaceEditor, which replaces a region of a file.
pub mod Texts
pub mod Regions
pub mod Replace
pub mod Occurrences
pub mod Exact
pub mod Changed
pub mod Windows
pub mod Staging
pub mod Tool
pub mod Agrees
