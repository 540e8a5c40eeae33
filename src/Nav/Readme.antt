-- ===== src/Nav/Readme.antt =====
-- The navigation data of the pages under docs/ta-ref_readme_html.
pub mod Chapters
pub mod Index
pub mod Laws
