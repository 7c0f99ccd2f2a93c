-- ===== src/Lib.antt =====
-- YartOS: verification of parts of its kernel.
--
-- Mm.Pmm models kernel/mm/pmm.c, the physical page allocator: `Pmm` is its static state, with the
-- bitmap as the function that BIT_TST computes and physical memory as a function from addresses to
-- bytes, and there is one function for each function of the file, under its name less the pmm_.
-- Mm.Pmm.Oom has pmm_alloc_page, whose eviction (vmm_evict_some) and killer (sched_oom_kill_one) are
-- parameters with the law that they keep the allocator's invariant, and Mm.Pmm.Init has pmm_init.
--
-- Mm.Heap models kernel/mm/heap.c, the kernel heap: `Heap` is its static state with the memory seen as
-- block headers and as canary words, and with the page allocator's state, from which grow takes pages
-- through pmm_alloc_pages. Alloc has grow, split, alloc_from_class, kmalloc, kmalloc_aligned and
-- heap_init, Release has kfree and kfree_aligned; the free lists, linked through `req`, are compared
-- with lists of blocks in Chain and Lists, Space has the invariant of the free blocks, and Mask is about
-- the two masks of kmalloc_aligned.
--
-- Fs.Blkfs models kernel/fs/blkfs.c, the file system on disk. Layout has compute_layout, the search
-- for a block's group and the place of a block's CRC; Space has the two bitmaps, the allocation of
-- inodes and blocks, and what format does to the bitmaps; Blocks has the block map of an inode,
-- inode_get_block, truncate_blocks and free_all_blocks. Blocks takes its blocks from Space, which
-- takes the groups from Layout. A block of the disk is read as its 1024 numbers of 32 bits.
--
-- Fs.Vfs models kernel/fs/vfs.c, the tree of files in memory. File has a file's bytes in their block of
-- the heap, vfs_read, vfs_write, vfs_truncate and ensure_cap, with kmalloc as a parameter, and an
-- abstract file that Refine compares them with; the (int) of the counts that vfs_read and vfs_write
-- return is int_result. Tree has the nodes with their pointers, attach,
-- find_child, vfs_create, vfs_symlink, vfs_unlink and the references; Path has the walk along a path,
-- through symbolic links, vfs_path_of and vfs_mkdir_p, over the tree; Perm
-- has vfs_check_perm. A node's bytes and its place in
-- the tree are two records, since no operation changes both.
--
-- Bignum models kernel/lib/bignum.c: limbs of 32 bits, bn_mont_mul and bn_n0inv; Power has bn_modpow
-- and bn_mod_mul, which call them, Divide has bn_bitlen, bn_shl1 and bn_mod, the long division by
-- shifts, Product has bn_mul_wide, and Crt has bn_rsa_private_crt between its reading and its writing
-- of bytes, which calls all of them. A number has any count of limbs; the source's is 64.
--
-- CString has memset and memcpy of kernel/lib/string.c, and CString.Format its vsnprintf, which writes
-- through put_pad, put_str and put_num, with a flag for a digit behind put_num's tmp[32]; CString.Memory has memmove, on one memory whose ranges may
-- overlap, and memcmp; CString.Strings has strncmp, strncpy and strchr.
--
-- Net.Eapol models kernel/lib/eapol.c, the station's side of the four-way handshake, Net.Ieee80211
-- the frames of kernel/net/ieee80211.c, and Net.Sta the state machine of kernel/net/wifi_sta.c, which
-- calls both; Net.Sta.Steps has its runs, with any frames from outside. Net.Bytes has the buffers. The
-- functions of kernel/lib/wpa.c, sha1.c and aes.c that they call are a parameter, `Crypto`, of which
-- nothing is assumed. The copy of a frame into a buffer that is too small is an outcome of its own.
--
-- Net.X509 models kernel/lib/x509.c, the reader of a TLS server's certificate.
--
-- Loops run on a count of rounds that the source gives (the number of pages, groups, inodes or table
-- entries). Two have none: parse_ies, whose rounds are proved to be enough, and the walk over a
-- certificate's body, whose rounds are an argument and whose running out is an outcome. The doubling of
-- ensure_cap, the last reduction of bn_mont_mul and the calls of vfs_lookup_at inside each other run on
-- a count as well, and give `none` when it is used up. The walks along the heap's lists take a count of
-- rounds too: the length of the longest list is enough for bucket_remove, 64 rounds for the doubling in
-- kmalloc_aligned, and a search of the huge blocks that runs out finds none, so that the heap grows.
-- Unsigned counters wrap as in the source where they can; a `return false`, a panic or an absent result
-- is a value.
--
-- The payload of a heap block is not part of the heap's state: what a program writes there does not
-- reach a header. kzalloc, which is kmalloc and memset, is left out.
--
-- Not modelled: locks (each function that holds one is a step), prints, and the parts of the kernel
-- that drive hardware. The memory map of pmm_init comes from the bootloader, and is taken to have
-- entries that start on a page and do not wrap round.
pub mod Prelude
pub mod CString
pub mod Bignum
pub mod Mm
pub mod Fs
pub mod Net
