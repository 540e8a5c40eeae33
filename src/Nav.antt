-- ===== src/Nav.antt =====
-- The navigation tree of the generated pages: docs/ta-ref_readme_html/navtree.js (the copy under
-- docs/ta-ref_spec_html is the same text) and the data that it loads.
mod Examples
pub mod Path
pub mod Tree
mod Entry
pub mod Goto
pub mod Start
pub mod Link
pub mod Highlight
pub mod Readme
pub mod Spec
