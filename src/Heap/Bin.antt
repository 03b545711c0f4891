-- ===== src/Heap/Bin.antt =====
-- Heap nodes and their bins, doubly linked lists: c-kernel/utils/impl/heap_bin.c.
-- A pointer is its address. The store gives the node header that starts at each address; headers at
-- different addresses are different cells, as they are when the blocks do not overlap.
pub mod Find
pub mod Push
pub mod Remove
pub mod Seg
use pentinum_os.Base.{
  ℕ, zero, suc, ◌+◌, ◌*◌, ◌/◌, Bool, Option, none, some, ◌==◌, leb, if◌then◌else◌,
}

pub record HeapNode : Type 0 where
  pub next : ℕ
  pub prev : ℕ
  pub size : ℕ
  pub flags : ℕ

pub record HeapBin : Type 0 where
  pub head : ℕ
  pub tail : ℕ

abbrev pub Store : Type 0
Store = ℕ → HeapNode

unfoldable pub write : Store → ℕ → HeapNode → Store
write m p n a = if a == p then n else m a

abbrev pub idflag : ℕ
idflag = 0xDEAD0000

unfoldable pub construct_heap_node : ℕ → HeapNode
construct_heap_node size = record { next = 0; prev = 0; size = size; flags = idflag }

-- `flags & 0xFFFF0000`
unfoldable pub heap_node_valid : HeapNode → Bool
heap_node_valid n = n.flags / 0x10000 * 0x10000 == idflag

unfoldable pub construct_heap_bin : HeapBin
construct_heap_bin = record { head = 0; tail = 0 }

-- `p->next = q` and `p->prev = q`
abbrev pub set_next : Store → ℕ → ℕ → Store
set_next m p q = write m p (record (m p) { next = q })

abbrev pub set_prev : Store → ℕ → ℕ → Store
set_prev m p q = write m p (record (m p) { prev = q })

unfoldable pub bin_push : Store → HeapBin → ℕ → Store × HeapBin
bin_push m bin node =
    if node == 0
    then (m, bin)
    else if bin.head == 0
    then (set_prev (set_next m node 0) node 0, record { head = node; tail = node })
    else (
      set_next (set_prev (set_next m node 0) node bin.tail) bin.tail node,
      record bin { tail = node },
    )

-- `node->prev->next = node->next; node->next->prev = node->prev;`
unfoldable pub unlink : Store → ℕ → Store
unlink m n = let m' = set_next m (m n).prev (m n).next in set_prev m' (m' n).next (m' n).prev

unfoldable pub bin_remove : Store → HeapBin → ℕ → Store × HeapBin
bin_remove m bin node =
    let next = (m node).next in
    let prev = (m node).prev in
    if node == 0
    then (m, bin)
    else if bin.head == 0
    then (m, bin)
    else if next == 0
    then (if prev == 0
        then (m, record { head = 0; tail = 0 })
        else (set_next m prev 0, record bin { tail = prev }))
    else if prev == 0
    then (set_prev m next 0, record bin { head = next })
    else (unlink m node, bin)

-- The `while` loop of `bin_find_node`, on fuel; `none` means that the fuel ran out, and a null
-- pointer that no node is large enough.
unfoldable pub find_loop : ℕ → Store → ℕ → ℕ → Option ℕ
find_loop zero m node req = none
find_loop (suc k) m node req =
    let rest = find_loop k m (m node).next req in
    if node == 0 then some 0 else if leb req (m node).size then some node else rest

unfoldable pub bin_find_node : ℕ → Store → HeapBin → ℕ → Option ℕ
unfolding find_loop
bin_find_node fuel m bin req = find_loop fuel m bin.head req
