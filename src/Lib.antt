-- ===== src/Lib.antt =====
-- mgStd: a C library of hash functions, checksums and containers. This library models its core.
--
-- The four Secure Hash files, src/mgsha1.c, src/mgsha256.c, src/mgsha384.c and src/mgsha512.c, are
-- independent of one another but repeat one text: a context holds the chaining words H, the table
-- K, the block M, the schedule W and a buffer LastString of two blocks; `_update` compresses whole
-- blocks and keeps the rest in the buffer; `_final` pads the rest and compresses it; `_calc` and
-- `_file` put these together.
--   Digest        the text that they repeat: `update`, `final` and `read_file` over a block size,
--                 a limit and a function `process` for one block
--   Digest.Load   `memcpy` into an array of words (little-endian machine), loops over W, `sprintf`
--   Digest.Fold, Digest.Absorb, Digest.Pad, Digest.Final, Digest.Stream, Digest.Fill
--                 the proofs about that text, and the padding of the standard
--   Sha1, Sha256, Sha512, Sha384
--                 one module for each file: `init`, `setw`, `round` and the entry points
--   Crc32         src/mgcrc32.c: the table of CRC-32, its update loop, the checksum of a block and
--                 of a file; Crc32.Laws compares it with the shift register, Crc32.Stream is about
--                 parts of a block and about files
--   Mglist        src/mglist.c: the circular doubly linked lists, each function as a command on a
--                 store of list heads (Mglist.Store); Mglist.Ring says which list a head stands
--                 for; Insert, Delete, Move, Splice, Cut and Replace hold the theorems
--   Hlist         src/mglist.c: the hash lists, whose nodes point back at the pointer that points at
--                 them; Hlist.Chain says which list a head stands for, Laws, Cut and Beside hold
--                 the theorems
--   Murmurhash    src/mgmurmurhash.c: mgMurmurhash64, mgMurmurhash3_x86_32 and the mixing steps;
--                 Murmurhash.Wide holds the three other hash functions; Mix, Mix64, Seed, Seed64
--                 and Seed128 hold the proofs
--   ShaFiles      what the four Secure Hash files print, side by side
--   Mgstack       src/mgstack.c: a stack in an array that grows; what the allocator answers is a
--                 parameter; Mgstack.Sort is mg_stack_sort, Mgstack.Sorted is about it
--   Fastsort      src/mgfastsort.c: quicksort, which the stack calls; Fastsort.Split is about the
--                 loop that splits the array, Fastsort.Laws about the sorting, Fastsort.Rotate about
--                 comparisons of addresses
--   Bintree       binary trees, sorted lists and walks, for the search trees
--   Avltree       src/mgavltree.c: insertion with rotations, search and traversal; Rotations,
--                 Balance and Order hold the proofs
--   Bstree        src/mgbstree.c: plain search trees; Bstree.Deletion is about mg_Bstree_del
--   Rbtree        src/mgrbtree.c: red-black trees; Rbtree.Removal is the removal and its repair loop;
--                 Ascending, Order, Balance, Rotated, Insertion, Laws and Growth are about insertion,
--                 search and height, Repair, Loop, Deletion, Left, Gone and Outcome about removal
--   Hashtable     src/mghashtable.c: lines of entries under a comparison function that is a
--                 parameter; Hashtable.Default is the creation and the comparison that the file
--                 provides; Lines, Laws, Distinct, Ints and Storage hold the proofs
--   Mainloop      src/mainloop.c: the event loop over epoll: its two lists of nodes, the memory and
--                 the timers that it holds; Mainloop.Keeps is about single calls, Mainloop.Session
--                 about a run from the start to the end, Mainloop.Timeouts about timers
--   Mgbitmap      src/mgbitmap.c: the allocation of numbers by a map of bits
--   Bits          ors, masks and shifts of disjoint fields as arithmetic
--   Base          words, arrays as lists, Boolean tests, how often a number stands in a list,
--                 arithmetic lemmas
--
-- A byte or word is a natural number, and every operation that can leave its width is followed by
-- `% 2 ^ 32` or `% 2 ^ 64`. An array is a list; `memcpy` and writes by index keep its length. What
-- a local context holds before its initialisation is an argument. Buffers of one call are shorter
-- than 2^31 bytes, as their `int` lengths say, and the array of a stack has fewer than 2^30 cells
-- before it doubles, as the `int` of its size says. `read_file` recurs on fuel, the length of the
-- file, which is enough because every `fgets` call reads at least one byte.
--
-- A list head of src/mglist.c is an address; 0 is NULL, and an access through an address that is not
-- live is a fault; in the hash lists only one through NULL is. `mglist_del` writes NULL, the poison of
-- src/mglist.h, so that a second deletion of the same entry faults.
--
-- The array that mgfastsort sorts is a function from indices; the loop and the recursion have as fuel
-- the distance of the bounds plus 2 and plus 1, and return within it. The search of mgbitmap_alloc
-- recurs on the turns that its counter leaves. A hash table's circular lists are modelled as the lists of
-- their entries, which is what Mglist shows of them. Search trees are inductive trees whose nodes
-- keep their address and parent pointer, in an AVL tree their height and in a red-black tree their
-- colour. A place in a red-black tree is a subtree and the frames above it; the loop of
-- mgrbtree_fixup_remove recurs on fuel, of which the frames above the place and two are enough. After
-- a removal mgrbtree_remove stores what it found in the right child of the given node. If that node
-- is still in the tree, the result need not be a tree, and it is an outcome of its own
-- (`overwritten`), with the tree as it is before the store.
--
-- The answers of malloc, timerfd and epoll are arguments of the functions of the event loop. One turn
-- of its run is a parameter, and the turns are counted: a run of a loop that has been told to quit
-- needs one.
--
-- Not modelled: the copies of LiteZip (src/mglite_zip.c, src/mglite_unzip.c); the variant of the event
-- loop with select, which is not compiled, and the part that hands the events of epoll to the
-- callbacks; the HTTP and ICMP clients, shared memory and terminal output, which are calls of other
-- libraries and of the system; the splay tree (src/mgsplaytree.c), MD5 and its HMAC; src/mgbase64.c,
-- another author's code; the creation of a hash table with failing allocations, and giving its memory
-- back.
mod Base
pub mod Bits
pub mod Digest
pub mod Sha1
pub mod Sha256
pub mod Sha512
pub mod Sha384
pub mod ShaFiles
pub mod Crc32
pub mod Mglist
pub mod Hlist
pub mod Murmurhash
pub mod Mgstack
pub mod Bintree
pub mod Avltree
pub mod Bstree
pub mod Rbtree
pub mod Hashtable
pub mod Mainloop
pub mod Fastsort
pub mod Mgbitmap
