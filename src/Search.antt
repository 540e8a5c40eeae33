-- ===== src/Search.antt =====
-- The search panel of the generated pages: docs/ta-ref_readme_html/search/search.js (the copy under
-- docs/ta-ref_spec_html/search is the same text).
mod Examples
pub mod Id
pub mod Build
pub mod Results
pub mod Children
pub mod Keys
pub mod Box
