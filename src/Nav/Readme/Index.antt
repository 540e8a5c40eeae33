-- ===== src/Nav/Readme/Index.antt =====
-- NAVTREEINDEX0 of docs/ta-ref_readme_html/navtreeindex0.js.
use mathlib.Core.List.{[], ◌∷◌}
use ta_ref.Nav.Goto.{Table}
use ta_ref.Nav.Entry.{at}

unfoldable pub nav_tree_index0 : Table
nav_tree_index0 =
    at "a00053.html" (1 ∷ [])
    ∷ at "a00053.html#autotoc_md12" (1 ∷ 0 ∷ [])
    ∷ at "a00054.html" (2 ∷ [])
    ∷ at "a00054.html#autotoc_md14" (2 ∷ 0 ∷ [])
    ∷ at "a00054.html#autotoc_md15" (2 ∷ 1 ∷ [])
    ∷ at "a00054.html#autotoc_md16" (2 ∷ 2 ∷ [])
    ∷ at "a00055.html" (3 ∷ [])
    ∷ at "a00055.html#autotoc_md18" (3 ∷ 0 ∷ [])
    ∷ at "a00055.html#autotoc_md19" (3 ∷ 1 ∷ [])
    ∷ at "a00055.html#autotoc_md20" (3 ∷ 2 ∷ [])
    ∷ at "a00056.html" (4 ∷ [])
    ∷ at "a00056.html#autotoc_md22" (4 ∷ 0 ∷ [])
    ∷ at "a00056.html#autotoc_md23" (4 ∷ 1 ∷ [])
    ∷ at "a00056.html#autotoc_md24" (4 ∷ 2 ∷ [])
    ∷ at "a00056.html#autotoc_md25" (4 ∷ 3 ∷ [])
    ∷ at "a00056.html#autotoc_md26" (4 ∷ 4 ∷ [])
    ∷ at "a00056.html#autotoc_md27" (4 ∷ 5 ∷ [])
    ∷ at "a00056.html#autotoc_md28" (4 ∷ 6 ∷ [])
    ∷ at "a00057.html" (5 ∷ [])
    ∷ at "a00057.html#autotoc_md30" (5 ∷ 0 ∷ [])
    ∷ at "a00057.html#autotoc_md31" (5 ∷ 0 ∷ 0 ∷ [])
    ∷ at "a00057.html#autotoc_md32" (5 ∷ 0 ∷ 1 ∷ [])
    ∷ at "a00057.html#autotoc_md33" (5 ∷ 0 ∷ 2 ∷ [])
    ∷ at "a00057.html#autotoc_md34" (5 ∷ 1 ∷ [])
    ∷ at "a00057.html#autotoc_md35" (5 ∷ 2 ∷ [])
    ∷ at "a00057.html#autotoc_md36" (5 ∷ 2 ∷ 0 ∷ [])
    ∷ at "a00057.html#autotoc_md37" (5 ∷ 2 ∷ 1 ∷ [])
    ∷ at "a00057.html#autotoc_md38" (5 ∷ 2 ∷ 2 ∷ [])
    ∷ at "a00058.html" (6 ∷ [])
    ∷ at "a00058.html#autotoc_md40" (6 ∷ 0 ∷ [])
    ∷ at "a00058.html#autotoc_md41" (6 ∷ 0 ∷ 0 ∷ [])
    ∷ at "a00058.html#autotoc_md42" (6 ∷ 0 ∷ 1 ∷ [])
    ∷ at "a00058.html#autotoc_md43" (6 ∷ 0 ∷ 2 ∷ [])
    ∷ at "a00058.html#autotoc_md44" (6 ∷ 1 ∷ [])
    ∷ at "a00058.html#autotoc_md45" (6 ∷ 1 ∷ 0 ∷ [])
    ∷ at "a00058.html#autotoc_md46" (6 ∷ 1 ∷ 1 ∷ [])
    ∷ at "a00058.html#autotoc_md47" (6 ∷ 1 ∷ 2 ∷ [])
    ∷ at "a00058.html#autotoc_md48" (6 ∷ 1 ∷ 3 ∷ [])
    ∷ at "a00058.html#autotoc_md49" (6 ∷ 1 ∷ 4 ∷ [])
    ∷ at "a00058.html#autotoc_md50" (6 ∷ 1 ∷ 4 ∷ 0 ∷ [])
    ∷ at "a00058.html#autotoc_md51" (6 ∷ 1 ∷ 4 ∷ 1 ∷ [])
    ∷ at "a00058.html#autotoc_md52" (6 ∷ 2 ∷ [])
    ∷ at "a00058.html#autotoc_md53" (6 ∷ 2 ∷ 0 ∷ [])
    ∷ at "a00058.html#autotoc_md54" (6 ∷ 2 ∷ 0 ∷ 0 ∷ [])
    ∷ at "a00058.html#autotoc_md55" (6 ∷ 2 ∷ 0 ∷ 1 ∷ [])
    ∷ at "a00058.html#autotoc_md56" (6 ∷ 2 ∷ 0 ∷ 2 ∷ [])
    ∷ at "a00058.html#autotoc_md57" (6 ∷ 2 ∷ 1 ∷ [])
    ∷ at "a00058.html#autotoc_md58" (6 ∷ 2 ∷ 2 ∷ [])
    ∷ at "a00058.html#autotoc_md59" (6 ∷ 2 ∷ 2 ∷ 0 ∷ [])
    ∷ at "a00058.html#autotoc_md60" (6 ∷ 2 ∷ 2 ∷ 1 ∷ [])
    ∷ at "a00058.html#autotoc_md61" (6 ∷ 2 ∷ 3 ∷ [])
    ∷ at "a00058.html#autotoc_md62" (6 ∷ 2 ∷ 3 ∷ 0 ∷ [])
    ∷ at "a00058.html#autotoc_md63" (6 ∷ 2 ∷ 3 ∷ 1 ∷ [])
    ∷ at "a00058.html#autotoc_md64" (6 ∷ 2 ∷ 3 ∷ 2 ∷ [])
    ∷ at "a00058.html#autotoc_md65" (6 ∷ 2 ∷ 3 ∷ 3 ∷ [])
    ∷ at "a00058.html#autotoc_md66" (6 ∷ 2 ∷ 3 ∷ 4 ∷ [])
    ∷ at "a00058.html#autotoc_md67" (6 ∷ 2 ∷ 3 ∷ 5 ∷ [])
    ∷ at "a00058.html#autotoc_md68" (6 ∷ 3 ∷ [])
    ∷ at "a00058.html#autotoc_md69" (6 ∷ 3 ∷ 0 ∷ [])
    ∷ at "a00058.html#autotoc_md70" (6 ∷ 3 ∷ 1 ∷ [])
    ∷ at "a00058.html#autotoc_md71" (6 ∷ 4 ∷ [])
    ∷ at "a00058.html#autotoc_md72" (6 ∷ 4 ∷ 0 ∷ [])
    ∷ at "a00058.html#autotoc_md73" (6 ∷ 4 ∷ 1 ∷ [])
    ∷ at "a00058.html#autotoc_md74" (6 ∷ 4 ∷ 1 ∷ 0 ∷ [])
    ∷ at "a00058.html#autotoc_md75" (6 ∷ 4 ∷ 1 ∷ 1 ∷ [])
    ∷ at "a00058.html#autotoc_md76" (6 ∷ 4 ∷ 1 ∷ 2 ∷ [])
    ∷ at "a00058.html#autotoc_md77" (6 ∷ 4 ∷ 2 ∷ [])
    ∷ at "a00059.html" (7 ∷ [])
    ∷ at "a00059.html#autotoc_md79" (7 ∷ 0 ∷ [])
    ∷ at "a00059.html#autotoc_md80" (7 ∷ 0 ∷ 0 ∷ [])
    ∷ at "a00059.html#autotoc_md81" (7 ∷ 0 ∷ 1 ∷ [])
    ∷ at "a00059.html#autotoc_md82" (7 ∷ 0 ∷ 2 ∷ [])
    ∷ at "a00059.html#autotoc_md83" (7 ∷ 1 ∷ [])
    ∷ at "a00059.html#autotoc_md84" (7 ∷ 1 ∷ 0 ∷ [])
    ∷ at "a00059.html#autotoc_md85" (7 ∷ 1 ∷ 1 ∷ [])
    ∷ at "a00059.html#autotoc_md86" (7 ∷ 2 ∷ [])
    ∷ at "a00059.html#autotoc_md87" (7 ∷ 2 ∷ 0 ∷ [])
    ∷ at "a00059.html#autotoc_md88" (7 ∷ 2 ∷ 1 ∷ [])
    ∷ at "a00059.html#autotoc_md89" (7 ∷ 2 ∷ 2 ∷ [])
    ∷ at "a00059.html#autotoc_md90" (7 ∷ 2 ∷ 2 ∷ 0 ∷ [])
    ∷ at "a00059.html#autotoc_md91" (7 ∷ 2 ∷ 2 ∷ 1 ∷ [])
    ∷ at "a00059.html#autotoc_md92" (7 ∷ 3 ∷ [])
    ∷ at "a00059.html#autotoc_md93" (7 ∷ 3 ∷ 0 ∷ [])
    ∷ at "a00060.html" (8 ∷ [])
    ∷ at "a00060.html#autotoc_md100" (8 ∷ 0 ∷ 2 ∷ [])
    ∷ at "a00060.html#autotoc_md101" (8 ∷ 1 ∷ [])
    ∷ at "a00060.html#autotoc_md102" (8 ∷ 1 ∷ 0 ∷ [])
    ∷ at "a00060.html#autotoc_md103" (8 ∷ 1 ∷ 1 ∷ [])
    ∷ at "a00060.html#autotoc_md104" (8 ∷ 1 ∷ 2 ∷ [])
    ∷ at "a00060.html#autotoc_md105" (8 ∷ 2 ∷ [])
    ∷ at "a00060.html#autotoc_md106" (8 ∷ 2 ∷ 0 ∷ [])
    ∷ at "a00060.html#autotoc_md107" (8 ∷ 2 ∷ 1 ∷ [])
    ∷ at "a00060.html#autotoc_md95" (8 ∷ 0 ∷ [])
    ∷ at "a00060.html#autotoc_md96" (8 ∷ 0 ∷ 0 ∷ [])
    ∷ at "a00060.html#autotoc_md97" (8 ∷ 0 ∷ 0 ∷ 0 ∷ [])
    ∷ at "a00060.html#autotoc_md98" (8 ∷ 0 ∷ 0 ∷ 1 ∷ [])
    ∷ at "a00060.html#autotoc_md99" (8 ∷ 0 ∷ 1 ∷ [])
    ∷ at "index.html" ([])
    ∷ at "index.html" (0 ∷ [])
    ∷ at "index.html#autotoc_md1" (0 ∷ 0 ∷ [])
    ∷ at "index.html#autotoc_md10" (0 ∷ 3 ∷ [])
    ∷ at "index.html#autotoc_md2" (0 ∷ 0 ∷ 0 ∷ [])
    ∷ at "index.html#autotoc_md3" (0 ∷ 1 ∷ [])
    ∷ at "index.html#autotoc_md4" (0 ∷ 1 ∷ 0 ∷ [])
    ∷ at "index.html#autotoc_md5" (0 ∷ 1 ∷ 1 ∷ [])
    ∷ at "index.html#autotoc_md6" (0 ∷ 1 ∷ 2 ∷ [])
    ∷ at "index.html#autotoc_md7" (0 ∷ 2 ∷ [])
    ∷ at "index.html#autotoc_md8" (0 ∷ 2 ∷ 0 ∷ [])
    ∷ at "index.html#autotoc_md9" (0 ∷ 2 ∷ 1 ∷ [])
    ∷ at "pages.html" ([])
    ∷ []
