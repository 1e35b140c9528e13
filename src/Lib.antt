-- ===== src/Lib.antt =====
-- corecommon is a collection of C and C++ components. This library models nine of them and proves
-- what makes them correct: an open-addressed hash table, a balanced search tree, text templates, a
-- vector with inline space, parser combinators, configuration files, arrays indexed by sets, numbers
-- of any size, and free functions on digits and numbers. The configuration files are read by the parser combinators into the hash table and
-- written from its iterator. What all parts share is in Common.
--
-- Common/Tests, Common/Lists, Common/Slices, Common/Ints: Boolean tests, conditionals, case splits,
-- chains of results that may be missing, arrays and strings as lists, and integers. They model no
-- file.
--
-- HashMap models `Map` of src/map.hpp.
--   Table     the record of a map: `count`, the groups of control bytes, the buckets. `Key` is what
--             the template takes from its key type: equality, `std::hash` and a default.
--   Probing   `Probe`: `start`, `next` (operator++), `match_group` (match), `take_slot` (insert) and
--             `release` (remove). The SIMD comparison of a group is the same loop over 16 bytes.
--   Growth    `load_factor`, `check_resize`, `resize` and the default constructor (`new`).
--   Methods   `insert`, `upsert`, `remove`, and `get` (operator[]); `locate` is the loop that the
--             first three share.
--   Iterating `Iterator` with `begin` and `operator++` (`step_on`), the loop to `end`, and `clear`.
--   Groups, Matching, Walked, Locate, Valid, Change, Effect, Entry
--             lemmas, from one group up to the abstract view: `Holds m k v` says that a map has an
--             entry, `IsValid` is the invariant.
--   Lookup, Update, Coverage, Fresh, Iterated
--             the theorems.
-- The loops over the groups have no bound in the code. They run on fuel here, and `HasRoom m k fuel`
-- says that the walk of a key meets an empty byte within it; Coverage shows for which tables every
-- walk does. The indices of groups and of buckets wrap at 2 ^ 32 as in the code. A valid map has
-- at most 2 ^ 28 groups: `resize` to more asks for a number of buckets that wraps. The
-- load factor is compared as `float`s, which `to_float` rounds to the nearest.
--
-- BTree models `Node` and `Root` of src/btree.hpp.
--   Tree      nodes and the nodes they own. A pointer into a tree is a `Place`: a subtree with the
--             way up to the root, which stands for `parent` and `root`. `Compare` is the comparison
--             of the template, a strict weak order as the standard asks. `h_diff`, a `char`, is an
--             integer; in a balanced tree it stays between -2 and 2.
--   Rotating  `rot_right`, `rot_left` and `rebalance`, whose loop goes up the path.
--   Searching `find`, its two loops as `descend` and `first_equal`.
--   Changing  `insert_node`, `insert` and `remove`. `insert_node` calls itself on a right subtree;
--             it runs on fuel, of which the height of the tree is enough.
--   Iterating `begin` and `operator++` of `Iterator`, and the loop from an iterator to the end.
--   Reversing `operator--`.
--   InOrder, Balance, Rounds, Rebalanced, Sorted, Found, Strict, Leftmost
--             lemmas: what keeps the order of the nodes, what balances, where a search ends.
--   Bounds    lemmas: how high a balanced tree is.
--   Inserted, Removed, First, Visited, Returned, Built
--             the theorems; `Built` are the trees that insertions and removals make.
-- A rotation towards a null pointer, which C++ leaves undefined, changes nothing.
--
-- Template models src/template.c.
--   Tree      `template_t`, `substitution_t` and `template_args`.
--   Parsing   `template_new`: the read cursor is an index, the write cursor the length of what is
--             written. The function calls itself on the rest of the text; one more unit of fuel than
--             the text has bytes is enough for the loop and all calls. A read past the terminator is
--             a result of its own, `overran`.
--   Rendering `template_length` and `template_substitute`, `unsigned long` additions modulo 2 ^ 64.
--             The second gives the arguments back with the loops whose rows it has freed. A read of
--             an argument that is not there, or of freed rows, has no result.
--   Filling   `do_template_va`: arguments of the wrong type or number, and a write past the buffer,
--             have no result.
--   Layout, Rounds, Reads, Length, Written
--             lemmas: the order of the offsets, what a round of the parser leaves, what a template
--             reads, and that the measure is right.
--   Parsed, Filled, Quote, Escape
--             the theorems.
-- That the caller passes one vector of rows for two loops is not modelled.
--
-- SmallVector models `SmallVector` of src/smallvector.hpp, for elements that need no destructor.
--   Buffer    `arr`, `data` (here `heap`), `cap` and `len`; `reserve`, `SmallVector(n)`, `SmallVector(n, x)` and
--             `operator[]`. An argument
--             `blank` stands for what a new element holds before it is assigned.
--   Pointer   the iterators: a pointer into one of the two spaces. `plus` and `minus` are `+=` and `-=`
--             with a signed distance; one that leaves its space has no result. `advance` and
--             `retreat` are their branches for the distances that the other operations use.
--   Editing   `make_space`, `insert`, `push_back`, `erase`, `pop_back`, `resize` and `clear`.
--   Contents  lemmas: the two spaces in one piece.
--   Positions, Pushed, Inserted, Erased, Sized
--             the theorems.
--
-- Parser models src/parser.hpp and src/parser.cpp.
--   Span      `ParserSpan`: pointers are offsets from `start`, bytes past the end read as 0. The
--             functions of C that parsers call: `strlen`, `strncmp`, `strchr` and `strtol`.
--   State     `Parser` with its conversions, `ParseStatus` and `err_string`.
--   Steps     the `run` methods that read text: `Any`, `Char`, `ParseEOF`, `ParseWS`, `Match`,
--             `ParseInt`, `ParseFloat`, and those of `ResultMap`, `ErrorMap`, `Ignore` and `Not`.
--   Maps      the `run` methods that call other maps, on what those maps do.
--   Syntax    the expression templates as data, `ParseMap`, and `run`, the parser that each one is.
--   Texts, Moves, Reads, Reading
--             lemmas: spans inside their text, what a step leaves, which maps read something.
--   Accepts, Loops, Bytes, Numbers
--             lemmas for clients: the texts that a map accepts or rejects, and what it gives.
--   Advances, Ending, Messages, Literal, Endless, Positions
--             the theorems.
-- `Many` and `Multiple` run on fuel; Ending shows that more rounds than there are bytes left are
-- enough. Where C++ converts a failed parser, an argument `kept` says what becomes of its result.
-- `strtof` is an argument of the map that calls it, and is assumed to read within its string.
--
-- Config models src/config.hpp and src/config.cpp.
--   Format    `Config::Value`, the parser that `parse` builds, `parse` and `save`. `Floats` is the
--             platform's `float` with `strtof` and its printing.
--   Entries, Values, Names
--             lemmas: the names and values that the parser accepts.
--   Saved, Quoted
--             the theorems.
--
-- ArraySet models `ArraySet` of src/arrayset.hpp.
--   Sets      the array with its `operator[]`, whose index `out_index` computes
--             (no result: a loop of `binomial` does not end), and `Iterator` with
--             `operator++` (`increment`). `std::sort` with `std::reverse` is `sort_down`.
--   Sorted    lemmas: `sort_down` keeps the numbers and sorts them.
--   Ranked    the theorems: the index is the rank of a set.
--
-- Numeric models `Digital` of src/numeric.hpp and src/numeric.cpp.
--   Digits    `pad`, `trim`, `add` and `sub` with their loops. The digits are a list, the highest
--             first; the carry goes to the front.
--   Signs     `negate` and `cmp`.
--   Carried, Negated, Compared
--             the theorems: what these do with the numbers that the digits are.
--
-- Util models `hexchar` and `charhex` (Hex), `VarIntRef` (VarInt) and `binomial` (Binomial) of
-- src/util.cpp and src/util.hpp. The first loop of `binomial` has k + 1 rounds as fuel, which is
-- enough unless it never ends.
--
-- Not modelled: src/serialize.hpp, src/sortedmap.hpp, src/cyclingindex.hpp and src/database; the
-- locks of src/locktable.hpp; the floating point numbers of src/field and src/dft; the callbacks
-- of libevent in server; OpenGL and SDL in graphics; and the copies of other projects' code,
-- src/stb_image.h, src/portableendian.h and graphics/nanosvg. Of the modelled files, the iterator
-- over one key of src/map.hpp and its constructor with a capacity, `ParseMap::length` of
-- src/parser.hpp, the other constructors and `swap` of src/smallvector.hpp, `consume` and
-- `swap_positions` of src/btree.hpp, the other operations of src/numeric.cpp, and the rest of
-- src/util.cpp are left out.
pub mod Common
pub mod Util
pub mod ArraySet
pub mod BTree
pub mod Config
pub mod Numeric
pub mod HashMap
pub mod Parser
pub mod SmallVector
pub mod Template
