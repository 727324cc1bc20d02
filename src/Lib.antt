-- ===== src/Lib.antt =====
-- The data structures, the event loop and the text tools of miscellaneous_repo.
--
-- Parts, and the file that models each:
--   c_data_structure/wba_str/wba_str.c, wba_str.h: length-prefixed byte strings. Str.antt has the
--     object (`Str` is wba_str_t) and one function for each operation (`strncat` is wba_strncat,
--     and so on); Str/Spec says when an object is well formed and what it holds; Str/Reserve,
--     Str/Append and Str/Create have the theorems on the operations that change and that make an
--     object. Str/Token has wba_strntok and wba_strtok, Str/Token/Words the words of a text and
--     Str/Token/Slices their bytes; Str/Token/Split relates the two.
--   network/wba_event/wba_evloop.c, wba_evloop.h: an event loop over epoll. Event.antt has the
--     data (`Evt` is wba_evt, `Base` is wba_evtbase with its wba_evtmap) and the interfaces;
--     Event/Time the arithmetic on struct timeval; Event/Ops the operations on an event
--     (`add_active` is event_add_active, `event_add` is event_add); Event/Poll the loop and its
--     steps, where Poll/Activate is event_map_active, Poll/Report all that epoll reports,
--     Poll/Expire fires what is due, Poll/Run serves the active events, and Poll/Round is a round
--     of the loop; Event/Life how events and bases come and go, where an array that malloc gives
--     holds anything. Event/Ops/Inv is the representation invariant: the flags of the events say
--     which lists and trees hold them, and the counters are their numbers. Event/Members has the
--     lists of distinct events.
--   c_data_structure/skiplist/skiplist.c, skiplist.h: a skip list over callbacks for keys.
--     Skiplist.antt has the nodes in a heap and the loops over the levels, Skiplist/Api the
--     operations with their tests (`sklist_insert` and so on; `tested` are the tests they begin
--     with), Skiplist/Walk the inner loop along a level, Skiplist/Passed and Skiplist/Search the
--     search.
--   c_data_structure/skiplist/skiplist.r.c, skiplist.r.h: the recursive skip list of int keys,
--     Recursive.antt. Recursive/Rows and Recursive/Links have the chain of nodes on each level
--     and what a write leaves of it, Recursive/Walk the entries that a list holds (`IsList`),
--     Recursive/Place the walk along a level, Recursive/Entries and Recursive/Removed what
--     insertion and deletion make of the entries. Recursive/Put is link_new and Recursive/Insert
--     the insertion, Recursive/Cut and Recursive/Delete the deletion, Recursive/Lookup the
--     search; Recursive/Keys is the sorted list of keys, and Recursive/Run compares the two.
--     Recursive/Nodes and Recursive/Search are the search on nodes that are given by their lowest
--     level, Recursive/Empty an empty list.
--   c_data_structure/slist.c: a singly linked list of texts, Slist.antt, with Slist/Append.
--   cpp_console/sstring.h: splitting and trimming texts, and numbers in them, Console/Text, with
--     Text/Split and Text/Decimal for what is proved of them.
--   cpp_console/stime.h: durations and times of the day, Console/Stime (`Duration` is
--     stime_duration), over Console/Text.
--   cpp_console/stree.h: a tree of keys, Console/Stree, with the forests that its nodes hold
--     (Stree/Forest), its traversals (Stree/Depth, Stree/Breadth) and add_node (Stree/Children).
--   preprocess (SrcLine, SrcFile, SrcIter, SrcCIter, Main): a file as lines of tokens and the
--     iterators over them, Preprocess, over the split of Console/Text.
--   network/tcp/inet_server.c: the table of connections and the timer that closes the old ones,
--     Tcp; Tcp/Age has the interleavings of its threads as steps.
--   my_lib/http_client/HttpClient.cpp, HttpClient.h: an HTTP client over the asynchronous
--     operations of boost. Http/Reader reads the parts of a response, Http/Client has the
--     handlers; Http/Once the interleavings of completions, timer and stop, Http/Chunks and
--     Http/Body the bodies in chunks, and Http/Content those without.
--   my_lib/ManualResetEvent: an event that threads wait for, ResetEvent, with the steps of the
--     threads; ResetEvent/Wait has what they reach, ResetEvent/Returns what a wait returns.
--   Prelude, with its children, has the shared helpers: tests, lists and integers over native
--     numbers.
--
-- Outside the program, and so parameters: malloc, realloc and vsnprintf (`Allocator`, and the text
-- that vsnprintf makes), epoll, the clock and the callbacks (`Os`), the lists of list.h
-- (`ListLib`) and the red-black tree of rbtree.c (`TreeLib`), both copies of the Linux kernel's.
-- What malloc and rand return to a skip list is an argument of the operation, and its key
-- functions are pure. A completion of the HTTP client's operations comes with any error and bytes.
--
-- Bounds and fuel: sizes of strings wrap at 2 ^ 64, and the number of slots of wba_strntok is an
-- s32. The counters of a base wrap at 2 ^ 32 and a wait at 2 ^ 31. The loops over a time tree or a
-- slot have one more than the nodes there as fuel, since each step leaves one behind. The loops
-- that callbacks can prolong (event_process_active and wba_event_loop), and the walks along a skip
-- list or a tree, take their fuel as an argument; their result `none` covers the end of the fuel.
-- The walks of the recursive skip list end with more fuel than there are entries and levels, and
-- event_process_active with more than there are active events, where callbacks leave those alone.
-- The traversals of a tree are given one round for each node and two more. The ints of a time of
-- the day are kept in their range, and what overflows is `none`.
--
-- Not modelled: what free does with a block, output for debugging, the 64-bit range of the fields
-- of a time, the other clients and servers (calls of the system only), the test drivers,
-- the output of the tree, and the C++ samples around boost, ICU and design patterns.
pub mod Prelude
pub mod Str
pub mod Event
pub mod Skiplist
pub mod Recursive
pub mod Slist
pub mod Console
pub mod Preprocess
pub mod Tcp
pub mod Http
pub mod ResetEvent
