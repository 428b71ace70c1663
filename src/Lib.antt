-- ===== src/Lib.antt =====
-- A verification library for htop, the interactive process viewer.
--
-- The parts of the program modelled here are those that the rest stands on. Panels (Panel.c) show
-- lines of objects kept in a vector (Vector.c); process lists keep their processes in a vector that
-- is sorted for display, and find them by pid in a hash table (Hashtable.c), which also caches user
-- names and the dynamic meters and columns. The setup screens' panels are made of option items
-- (OptionItem.c), which read and write the variables of the settings.
--
-- Prelude holds what the files share: library names, Boolean tests, lists with native indices
-- (Prelude/Lists), counts (Prelude/Count), and C's `int` as signed integers (Prelude/Int).
--
-- Vector.c is modelled in Vector, one definition per function under the function's name
-- (Vector_insert is `insert`; Vector_take is `take_item` and Vector_set `set_item`). The array is a
-- list of
-- slots; a slot is `none` while its pointer is NULL or not written yet. Objects that an owning vector
-- deletes are returned in a list. `Vector_splice` is none where an assertion of it fails.
-- Vector/Contents relates a vector to the list of its objects;
-- Vector/Refine, Vector/Access and Vector/Splice prove the operations against that list. The sorts
-- are in Vector/Sort, with their proofs below it.
--
-- Hashtable.c is modelled in Hashtable: buckets with key, probe count and value, a NULL value marking
-- a free bucket. Hashtable/Invariant states the Robin Hood layout, Hashtable/Get, Hashtable/Insert,
-- Hashtable/Resize, Hashtable/Put and Hashtable/Remove treat the operations.
--
-- Panel.c is modelled in Panel (items and selection), Panel/Keys (Panel_onKey), Panel/Draw (how
-- Panel_draw scrolls) and Panel/Typing (Panel_selectByTyping). OptionItem.c is modelled in
-- OptionItem/Check and OptionItem/Number; a variable that an item refers to is an address of a store.
--
-- The search and the filter of a panel (IncSet.c) are modelled in IncSet, its keys in IncSet/Keys; what
-- `updateWeakPanel` shows is proved in IncSet/Weak. The string helpers and the read loop of XUtils.c
-- are modelled in Text; read(2) is a parameter, with its documented promises as hypotheses.
--
-- FunctionBar models the bar of keys and labels (FunctionBar.c), ScreenManager the layout of a screen's
-- panels (ScreenManager.c), UsersTable the cache of user names over the hash table (UsersTable.c).
--
-- Affinity models the growing list of CPUs (Affinity.c), Header the columns of meters at the top of the
-- screen (Header.c, HeaderLayout.h).
--
-- ColumnsPanel is the event handler of the setup panel of the columns (ColumnsPanel.c), over the
-- model of
-- Panel.c.
--
-- RichString models strings with attributes (RichString.c) in the variant without wide characters, with
-- the move of long strings to memory of their own.
--
-- Process models what is known of a process and how a scan renews its names (Process.c, Process.h),
-- Process/Compare the comparisons that the lists are sorted by. Floats and signed numbers are ℤ there.
-- ProcessList is ProcessList.c: a pointer to a process is a number, and a heap gives what it points to.
-- The platform's class may bring a comparison of its own, which is a parameter. ProcessList and
-- ProcessList/Build are the building of the tree (ProcessList_buildTreeBranch,
-- ProcessList_buildTree), ProcessList/Forest says what a tree is and ProcessList/Below where a
-- process stands in it; ProcessList/Scan is the table beside
-- the list and the loops of ProcessList_scan; ProcessList/Panel fills the main panel, with the model of
-- Panel.c. In these files a vector is the list of its objects, as Vector/Refine justifies, and a hash
-- table the list of its entries. `ProcessList_goThroughEntries`, which each platform has, is a
-- parameter.
--
-- Fuel: quickSort recurses on fuel, one unit a level; a range of n elements needs at most n + 1, which
-- is what Vector_quickSortCustomCompare's model passes. The probing loops of Hashtable.c get one unit
-- more than there are buckets: the source asserts that they do not come back to their start.
-- A branch of the process tree takes one unit a level, and as each level takes a process out of the
-- list,
-- one more than there are processes is enough; so it is for the loop over the roots. `none` is also the
-- failed assertion of buildTree that the parents form no loop.
-- IncMode_find gets as many rounds as the panel has lines, String_split one more than characters.
--
-- Left out: the C library's allocator and its failure (which ends the program), what is printed
-- through curses, isgraph, isprint, strncasecmp and strcasestr (parameters), the limits of `int`, the
-- text of a panel's header (only its length is kept), the command line shown for a process, the renewed
-- order of the process tree (ProcessList_updateTreeSet), and the platforms' reading of kernel data.
-- Shifts by the level of a process are those of unbounded numbers: in C a level of 31 overflows `int`.
pub mod Prelude
pub mod Affinity
pub mod ColumnsPanel
pub mod FunctionBar
pub mod Hashtable
pub mod Header
pub mod IncSet
pub mod OptionItem
pub mod Panel
pub mod Process
pub mod ProcessList
pub mod RichString
pub mod ScreenManager
pub mod Text
pub mod UsersTable
pub mod Vector
