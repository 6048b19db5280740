-- ===== src/Lib.antt =====
-- ycetl, a header-only library of containers that work at compile time and at run time.
--
-- The program's parts and their models:
-- * include/ycetl/dynamic_array.hpp, the array that the other containers stand on, with the
--   construction helpers of include/ycetl/memory.hpp and blocks as typed_dynamic_memory.hpp hands
--   them out: DynamicArray. Its child Slots has the life of each slot (no object, a value, a
--   moved-from object) and the loops; an access out of a block, a read of no value and the
--   destruction of no object are faults, the value `none`. A `const T &` parameter is a Reference,
--   to an object outside the array or to an element of it, since the code reads it after it has
--   moved the elements. Loops has closed forms of the loops, Contents the sequence that an array
--   holds; Growth, Inserting, Erasing, Resizing and Copying follow the operations.
-- * The flat sorted containers share Flat, the binary search (`lower_bound_index`) and the erase
--   that keeps the order. Set is include/ycetl/set.hpp and Map include/ycetl/map.hpp; each has its
--   operations by the names of the source (`operator[]` is subscript), a child Laws, and Map also
--   Erasing. Their state is the sequence that `_data` holds, where an iterator is an index and the
--   size is `end()`. `Compare` is a section parameter, the record Order, a strict weak order.
-- * include/ycetl/deque.hpp, a ring buffer: Deque, with Index for the arithmetic round the ring
--   and Growth for `grow`. It reads and writes the elements of `_buf` only, a list; Ends has both
--   ends.
-- * include/ycetl/queue.hpp and stack.hpp, over their default containers: Queue on Deque and Stack
--   on DynamicArray. Adapter has their interface, a run of commands on it and on a plain sequence,
--   and what an implementation has to show; the Laws of both fill it.
-- * include/ycetl/unordered_map.hpp and unordered_set.hpp, open addressing with linear probes and
--   tombstones: their common loops are Probe, over an entry type and a function that takes its
--   key; UnorderedMap has pairs as entries and UnorderedSet keys, with the iterators of Repeats
--   below. `Hash` and `KeyEqual` are the record Hashed: an equivalence, and equal keys have equal
--   hashes. Valid is the invariant (every filled slot is reached by a probe from its home, keys
--   differ), Scan the reference lookup, Seek the probe loops; Change, Inserting, Erasing,
--   Reassign, Place, Replace, Rehash and Growth follow the operations.
-- * include/ycetl/unordered_multiset.hpp and unordered_multimap.hpp, the same tables with keys
--   that may repeat: their common loops are Repeats, UnorderedMultiset has keys as entries and
--   UnorderedMultimap pairs. Probe/Valid's IsReached is the part of the invariant that is left;
--   the reference is the number of slots with an entry under a key. Lookup, Inserting, Erasing,
--   Rehash and Iterating follow the operations.
-- * include/ycetl/multiset.hpp and multimap.hpp: Multiset and Multimap, on Flat too, with the
--   upper bound and the erase of a run of equal keys. Flat/Runs has the reference, the elements
--   under a key in their order, and Flat/Groups what the cuts of the two searches do to them.
-- * include/ycetl/priority_queue.hpp, a binary heap in an array: PriorityQueue, with Swap, the
--   order of the heap in Heaps, the loops `sift_up` in Up and `sift_down` in Down, and the
--   operations in Laws. `_cmp` is Order again.
-- * include/ycetl/bitset.hpp, sets of bits: Bitset, words below 2 ^ 64, with the accesses to one
--   bit in Access, the operations on all words in Whole and Combine, `count` in Counting and the
--   constructor in Building. Bits has the binary digits of a word under `&`, `|`, `^`, `~`, shifts
--   and masks.
-- * include/ycetl/list.hpp, a doubly linked list: LinkedList, nodes on an explicit memory where a
--   pointer is null or an address, and `new` takes the next unused address. Cells says what a list
--   holds; Linked and Unlinked do one insertion and one removal, which Steps, Inserting, Middle,
--   Removing and Ends show the writes of the code to be; Copying has `clear` and the copies,
--   Building the initializer list and the move,
--   RoundTrip an insertion and its erasure.
-- * include/ycetl/hive.hpp, slots that are filled or empty and a stack of the indices of the empty
--   ones: Hive, with the invariant and `insert` in Laws and `erase` in Vacating. An iterator is
--   the index of its slot.
-- * include/ycetl/shared_ptr.hpp and weak_ptr.hpp, owners and observers that share a control
--   block: SharedPtr and WeakPtr, over a State of the heap and the variables of both classes.
--   Counts says what the two counters count, Steps that each step on one block keeps that, Owners
--   what a release and a retention do to the variables; Adopting, Observers and both Laws follow
--   the operations.
-- * include/ycetl/unique_ptr.hpp, sole owners: UniquePtr, over the objects and the variables.
-- * include/ycetl/typed_static_memory.hpp, a bump allocator over a fixed array: StaticMemory,
--   where a pointer is its offset.
-- * include/ycetl/hash.hpp, the hashes of words and of strings: Hash, words below 2 ^ 64, with the
--   steps of the hashes in Steps; a string is the list of its bytes.
-- * include/ycetl/typed_dynamic_memory.hpp, an allocator that records what it hands out:
--   DynamicMemory, over a heap of live blocks, which stands for `std::allocator`. Recording has
--   the array of allocations, Owning the blocks on the heap.
-- * Rounds has the index arithmetic round a ring, which deque and the tables share.
-- * Sequence has the list operations that containers are measured against, Size the arithmetic of
--   `std::size_t` modulo 2 ^ 64, Base what all parts share, Examples runs on small inputs.
--
-- Bounds and fuel: the binary search runs on as much fuel as there are elements, which is enough
-- since each round at least halves what is left. `sift_up` takes as much fuel as the index,
-- `sift_down` and the loops over the nodes of a list as much as the size, and the loop that counts
-- the ones of a word 64 rounds; the theorems say that this is enough. Every other loop recurses on
-- the number of its rounds. Sizes stay below the bounds that the theorems name (2 ^ 57 to 2 ^ 64),
-- past which the arithmetic of `std::size_t` wraps.
--
-- Arguments: in DynamicArray and Stack a `const T &` argument is a Reference; everywhere else it is a
-- value. So a call that passes an element of the container itself, such as `push_back(d[0])` on a
-- deque, a queue or a priority queue that has to grow, is not covered.
--
-- Not modelled: iterators as objects, constructors from ranges, exceptions and allocation failure
-- of the heap, other containers below queue and stack; forward_list, inplace_vector and
-- trivial_shared_ptr, strings and views; template metaprogramming (type_system.hpp and the
-- multitype memory), tracing, tests, examples and vendored headers.
pub mod Base
pub mod Size
pub mod DynamicArray
pub mod Rounds
pub mod Sequence
pub mod Order
pub mod Flat
pub mod Set
pub mod Map
pub mod Deque
pub mod Adapter
pub mod Queue
pub mod Stack
pub mod Hash
pub mod Probe
pub mod Repeats
pub mod UnorderedMap
pub mod UnorderedSet
pub mod UnorderedMultiset
pub mod UnorderedMultimap
pub mod Multiset
pub mod Multimap
pub mod PriorityQueue
pub mod Bits
pub mod Bitset
pub mod LinkedList
pub mod Hive
pub mod SharedPtr
pub mod WeakPtr
pub mod UniquePtr
pub mod StaticMemory
pub mod DynamicMemory
mod Examples
