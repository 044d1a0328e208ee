-- ===== src/Lib.antt =====
-- The binder IPC stack: a kernel driver that passes transactions and references between processes, and
-- the user-space code around it. This library is about the driver, driver/binder.c, about the service
-- manager, src/cmds/servicemanager/service_manager.c and binder.c there, which is the context manager
-- of the driver and hands out references to services by name, about the parcels of the user-space
-- library, src/lib/binder/Parcel.cpp, and about the reading and printing of the log that all of them
-- write to, src/lib/liblog/logprint.c and event_tag_map.c there.
--
-- Parts. A process maps an area of memory once (binder_mmap); the driver cuts it into buffers, one for
-- each transaction that the process receives, and takes them back when the process is done with them.
-- Objects of a process are nodes; other processes hold references to nodes under small numbers, the
-- descriptors, and counts of both decide when a node is freed.
--
-- Files.
--   Prelude: names of the libraries, Boolean tests, lists by native numbers, counting in lists.
--   Driver/Rbtree: the red-black trees. The driver walks and links them itself (search_by, link_by);
--     rb_insert_color and rb_erase are the kernel's and a parameter (Rb), of which the order of the
--     nodes is known. The BUG_ON for each node of a walk is search_visits and link_visits. Search and Holds carry what every user of a tree needs.
--   Driver/Kernel: what else the driver calls of the kernel (the mapping of a page may fail in three
--     ways), and the outcome of a routine: `ok`, or `bug` for BUG() and for a null or freed pointer
--     that is followed.
--   Driver/Buffer: struct binder_buffer and the fields of struct binder_proc for buffers. Pages is
--     binder_update_page_range, Alloc is binder_alloc_buf, Free is binder_delete_free_buffer and
--     binder_free_buf, Mmap is binder_mmap. Valid states the invariant between calls: the list of
--     buffers tiles the area, no two free buffers are neighbours, each tree holds the buffers of its
--     kind in its order, every buffer in use has room for its transaction, and the asynchronous space
--     with what is in use is no more than half of the area: binder_free_buf may give back less than
--     binder_alloc_buf has taken. Paged states which pages are there between calls.
--   Driver/Store, Driver/Node, Driver/Ref: struct binder_node and struct binder_ref in a store by
--     address, and the operations from binder_get_node to binder_dec_ref. Ref/Indexed states how the
--     references of a process are found.
--     Ref/Counts and Ref/Raising count references: the internal strong count of a node is the number
--     of its references that hold a strong count.
--   Driver/Reply: binder_pop_transaction and binder_send_failed_reply, with the fields of struct
--     binder_transaction and struct binder_thread that they use.
--   Driver/Tests: a process and runs of the routines at concrete inputs.
--
--   ServiceManager: the registry of src/cmds/servicemanager/service_manager.c, its list of services and
--     the commands that it sends to the driver. ServiceManager/Registry is what do_find_service gives
--     behind do_add_service. ServiceManager/Bio is struct binder_io of src/cmds/servicemanager/binder.c
--     with the bio_ functions, over the bytes of Memory. What the driver makes of the objects in a
--     message is a parameter, of its type and pointer. Its children are about the
--     writing, the reading and the limits of a message. ServiceManager/Parse is binder_parse, over any
--     handler. ServiceManager/Handler is svcmgr_handler, and Handler/Requests joins a client's
--     message, the handler and the registry.
--
--   Libbinder: src/lib/binder/Parcel.cpp. Libbinder/Parcel is the state of a Parcel, with mData as a
--     function from offsets and size_t of 32 bits; an access outside mDataCapacity bytes is the outcome
--     `fault`. Growth is growData and continueWrite, over an allocator that is a parameter, Writing the
--     write functions and Reading the read functions. What acquire_object, release_object and the owner
--     of the data are told is kept as a list. A parcel that owns its data and stands within it is
--     IsSound (Sound); Items are sequences of words and strings, Stored and Fetched say where they lie
--     and that they are read, RoundTrip joins both. Hint is the search of readObject, Looking and
--     Objects are about readObject and writeObject, Inside and Calls about reads of any bytes, Limits
--     about sizes that wrap, Cutting and Dropping about setDataSize, Whole is ipcSetDataReference,
--     setData and file descriptors, and Received a parcel that is sent and received.
--   Liblog: src/lib/liblog/logprint.c. Liblog/Filters is the filter rules, from filterCharToPri to
--     android_log_addFilterString and dumpFilters; Liblog/LogBuffer is android_log_processLogBuffer,
--     with the payload as a function from offsets; Liblog/LogLine is android_log_formatLogLine, whose
--     loop over the lines runs on as much fuel as the message has bytes. Their children give the
--     rules and the lines an independent reading. Liblog/Strings is what they use of the C library.
--     Liblog/TagMap is sortTags and android_lookupEventTag of src/lib/liblog/event_tag_map.c; qsort is
--     a parameter. The binary search takes the length of the array as fuel, as
--     binder_parse takes the number of words.
--
-- State and operations. Objects are named by their addresses; a routine takes the state and returns the
-- new one, in the order of the source, with the guards and early returns of the source. size_t and
-- pointers wrap at 2^64, the counters and descriptors at 2^32, as written in the definitions. Struct
-- sizes are those of a 64-bit kernel with pages of 4096 bytes, and a binder_ptr has 32 bits there;
-- size_t has 32 bits in the user-space code, which is built with -m32. Loops run over a tree, a list or a
-- number of pages that is computed before the first round; binder_send_failed_reply takes
-- fuel, one for each transaction on the way to a live sender, and its theorems name how much is
-- enough; the loop over the lines of a log message takes its length, which the theorems prove enough.
--
-- Not modelled: locks, debug output, statistics, wake-ups, cache colouring and the mapping of the pages
-- in the process beside proc->pages; the other work on transactions and threads and the ioctl commands;
-- debugfs. binder_send_reply, binder_call and the ioctl loop of the service manager. Of a Parcel,
-- appendFrom, the interface token, dup of file descriptors, blobs, native handles, the flattening of
-- binders and numbers that are not integers; the rest of src/lib/binder. Of liblog, the binary events, the reading of the tag map and the
-- output; the libraries libcutils and libcorkscrew; the rest of the repository is C++.
pub mod Prelude
pub mod Driver
pub mod Libbinder
pub mod Liblog
pub mod Memory
pub mod ServiceManager
