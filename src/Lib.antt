-- ===== src/Lib.antt =====
-- Two parts of ta-ref. The first are the scripts of its generated documentation, docs/ta-ref_readme_html
-- and docs/ta-ref_spec_html, whose scripts are the same text: the search panel with its results page,
-- the navigation tree with its data, the folding of tables and sections, the navigation bar and the
-- menu. The second are programs in C: the cryptographic operations of the TEE interface under api/, and
-- the profiler under profiler/ with its analyzer.
--
-- Parts, and how they interact. The search panel (search/search.js, SearchBox) turns the text of the
-- field into the address of a results page with the text as its query. On that page createResults
-- makes a row for each entry of the page's data, SearchResults.Search shows the rows whose id begins
-- with the id of the text (convertToId), and the keyboard moves among the rows that are shown
-- (Nav, NavChild), whose children Toggle opens. The navigation tree (navtree.js) finds the table of the
-- index that holds the page and hash of the location (navTo), the path in the table (gotoNode) and
-- the node at the path (showNode); a link in the browser's storage, which the sync button sets, stands
-- for the location. dynsections.js, resize.js and menu.js each keep their own elements.
-- A program allocates an operation handle for a mode and an algorithm, sets the key of a key object into
-- it, and calls the functions for digests, authenticated encryption, CBC or signatures, which keep
-- contexts of the cipher libraries and, for authenticated encryption, a state in the handle.
-- The profiler writes a record for each call and return of an instrumented program into a buffer, and
-- the buffer into a log file; the analyzer matches the records of the log with a stack and names the
-- functions by a hash table that it reads from the output of nm.
--
-- Files.
-- Prelude and its children: the shared names, Boolean tests, lists over the native numbers, integers,
--   what a loop with a bound comes to.
-- Text, Text/Escape: the text functions of the language on lists of UTF-16 code units (indexOf,
--   toString(16), escape, unescape, the fixed patterns that the scripts replace).
-- Search/Id: convertToId. Search/Results: SearchResults.Search. Search/Children: FindChildElement and
--   Toggle, on a tree of elements with a place in it. Search/Keys: ProcessKeys, NavNext, NavPrev, Nav,
--   NavChild. Search/Build: setKeyActions, setClassAttr, createResults, init_search. Search/Box: the state
--   of SearchBox; Search/Box/Search: Search; Search/Box/Events: the handlers that search, and timers.
-- Nav/Path: getData, stripPath, stripPath2, hashValue, hashUrl, pathName. Nav/Tree: newNode, getNode,
--   expandNode, showNode. Nav/Goto: gotoNode, navTo. Nav/Link: storeLink, deleteLink, cachedLink,
--   toggleSyncButton, the link of a node. Nav/Highlight: selectAndHighlight. Nav/Start: load,
--   hashchange and how initNavTree calls navTo. Nav/Readme: the data of the
--   readme, navtreedata.js and navtreeindex0.js; Nav/Spec: the data of the specification, navtreedata.js
--   and navtreeindex0.js to navtreeindex2.js; Nav/Spec/Scripts: the scripts that hold parts of its tree.
-- Folders: updateStripes, toggleLevel, toggleFolder of dynsections.js; Folders/Sections:
--   toggleVisibility, toggleInherit.
-- Resize: initResizable of resize.js. Menu: initMenu of menu.js.
-- Crypto: the constants, handles and outcomes of api/tee-internal-api-cryptlib.c and the types of
--   api/keystone and api/include that it uses. Crypto/Handle: TEE_AllocateOperation, TEE_FreeOperation,
--   TEE_SetOperationKey. Crypto/Key: TEE_GenerateKey, transient objects and attributes. Crypto/Digest,
--   Crypto/Gcm, Crypto/Cipher, Crypto/Sign: TEE_Digest..., TEE_AE..., TEE_Cipher..., TEE_Asymmetric....
--   Crypto/Gcm/States: any call on a handle; Crypto/Gcm/RoundTrip: a message through two handles.
-- Profiler: profiler/profiler.c and profiler/keystone/tee_profiler.c, with the PERF_SIZE of
--   profiler/Makefile. Profiler/Stack:
--   profiler/analyzer/stack.h. Profiler/Names: profiler/analyzer/nm_parse.c. Profiler/Analyzer: main of
--   profiler/analyzer/analyzer.c. Profiler/Trace: a run of a program, and the lines for its calls.
-- The module Laws, or one named for what it proves, below a module holds its theorems, and Examples
-- the theorems at concrete inputs.
--
-- State. The fields of an object and the properties of the elements that a script reads or writes are
-- the fields of a record, and a handler takes the record to its next value. An error of the language
-- (a property of undefined) is none; in the programs in C none stands for an access behind the end of an
-- array, which the code makes where it does not test an index, and a call of TEE_Panic is an outcome of
-- its own. Every loop has a bound that is enough: FindChildElement has a round
-- for each element that the walk can meet, NavNext one for each row and one for the missing row, the
-- loop over the child links one for each link and one for the missing link; toString(16) of n and the
-- decimal digits of n take n + 1 rounds at most. The first three give `unfinished` of Prelude/Loops
-- where the rounds do not suffice, which is not one of their results. The other loops are recursions
-- on their lists.
--
-- Parameters. toLowerCase beyond ASCII (`lower`); the comparison of a text with the number 1 (`gt_one`);
-- jQuery's extend (`extend_array`); the scripts of the tree that arrive (`load`); reading a text as a
-- number, writing a number, and the assignment to document.cookie (`number`, `decimal`, `set_cookie`);
-- the readings of the counter of cycles and of the core, and what sscanf leaves of a line; the
-- functions of mbed TLS, SHA-3 and Ed25519 on the bytes of their contexts (`Library`), what malloc gives,
-- and the seed of TEE_GenerateKey.
--
-- Not modelled: what elements look like beyond the properties named above (indentation, the glow of an
-- anchor, scrolling, animation), the binding of events, the search and menu data, and jQuery. Of the
-- programs in C: the builds of the cryptographic operations with WolfSSL and tiny AES, and the rest of
-- api/ (persistent objects, time, random numbers, formatted output, start-up and bridges).
pub mod Prelude
pub mod Profiler
pub mod Crypto
pub mod Text
pub mod Search
pub mod Nav
pub mod Folders
pub mod Resize
pub mod Menu
