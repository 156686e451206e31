-- ===== src/HeapSort.antt =====
-- Project12/heapsort.c: the records of a file, sorted with a heap in an array.
-- The sizes of a page and of a record are in person.h, which the repository does not hold.
mod Keys
mod Swaps
mod Rest
mod Order
mod Sift
mod Phases
mod Files
mod Program
mod Tests
use linux_project.Base.{
  has_char, ℕ, zero, suc, ◌+◌, ◌*◌, ◌-◌, ◌/◌, Bool, true, false, ◌||◌, Option, none, some, List, [],
  ◌∷◌, ◌++◌, ltb, ◌==◌, if◌then◌else◌, length, get_elem?, get_or, set, drop, replicate, ◌>>=◌,
  strncpy,
}

-- The bytes of a record, and the array of records.
abbrev pub Record : Type 0
Record = List ℕ

abbrev pub HeapArray : Type 0
HeapArray = List Record

abbrev pub mark : ℕ
mark = 35

unfoldable pub skip_marks : List ℕ → List ℕ
skip_marks [] = []
skip_marks (c ∷ s) = if c == mark then skip_marks s else c ∷ s

unfoldable pub up_to_mark : List ℕ → List ℕ
up_to_mark [] = []
up_to_mark (c ∷ s) = if (c == mark) || (c == 0) then [] else c ∷ up_to_mark s

-- `strtok(buf, "#")` in a buffer of a record's size; an empty list is its `NULL`.
unfoldable pub strtok : Record → List ℕ
strtok r = up_to_mark (skip_marks r)

-- `strcmp(s, t) > 0`, over unsigned bytes
unfoldable pub above : List ℕ → List ℕ → Bool
above [] t = false
above (c ∷ s) [] = true
above (c ∷ s) (d ∷ t) = if c == d then above s t else ltb d c

-- The token has an end in the buffer: a mark, or a NUL. Without one `strtok` reads on behind it.
unfoldable pub closed : Record → Bool
closed r = let s = skip_marks r in has_char mark s || has_char 0 s

-- `strcpy(par, strtok(strncpy(buf, r), "#"))`; a copy from `NULL` fails.
unfoldable pub key_of : ℕ → Record → Option (List ℕ)
key_of size r =
    let buf = strncpy size r in
    if closed buf then elim (strtok buf) [ [] ↦ none | c ∷ s ↦ some (c ∷ s) ] else none

-- A read of a slot that the array does not have fails.
unfoldable pub key_at : ℕ → HeapArray → ℕ → Option (List ℕ)
key_at size a i = get_elem? a i >>= key_of size

-- `strncpy(heaparray[i], r, RECORD_SIZE)`; a write of a slot that the array does not have fails.
unfoldable pub store : ℕ → HeapArray → ℕ → Record → Option HeapArray
store size a i r = if ltb i (length a) then some (set a i (strncpy size r)) else none

-- `heaparray[node]` and `heaparray[child]` change places through `buf`.
unfoldable pub exchange : ℕ → HeapArray → ℕ → ℕ → Option HeapArray
exchange size a node child = do
  child_record ← get_elem? a child
  let buf = strncpy size child_record
  node_record ← get_elem? a node
  a' ← store size a child node_record
  store size a' node buf

-- The exchange with the left child, the new key of the node, and the call for the child.
unfoldable pub go_left :
    ℕ → (HeapArray → Option HeapArray) → HeapArray → ℕ → Option (HeapArray × List ℕ)
go_left size sift a node = do
  a' ← exchange size a node (node * 2)
  par ← key_at size a' node
  a'' ← sift a'
  some (a'', par)

-- `heapify(heaparray, node, recordnum, max)`, with fuel for the calls for a child.
unfoldable pub heapify : ℕ → ℕ → (node recordnum max : ℕ) → HeapArray → Option HeapArray
heapify size zero node recordnum max a = none
heapify size (suc fuel) node recordnum max a =
    let left = heapify size fuel (node * 2) recordnum max in
    let right = heapify size fuel (node * 2 + 1) recordnum max in
    if ltb node 1 || ltb recordnum node || ltb max node then some a else do
      par ← key_at size a node
      b1 ← key_at size a (node * 2)
      (a', par') ← if above par b1 then go_left size left a node else some (a, par)
      b2 ← key_at size a' (node * 2 + 1)
      if above par' b2 then exchange size a' node (node * 2 + 1) >>= right else some a'

-- `for (i = node; i > 0; i--) heapify(heaparray, i, recordnum, max)`
unfoldable pub heapify_down : ℕ → (i recordnum max : ℕ) → HeapArray → Option HeapArray
heapify_down size zero recordnum max a = some a
heapify_down size (suc i) recordnum max a =
    heapify size (suc max) (suc i) recordnum max a >>= heapify_down size i recordnum max

-- `readPage`: behind the end of the file `fread` leaves the buffer as it is.
unfoldable pub read_page : List (List ℕ) → List ℕ → ℕ → List ℕ
read_page file pagebuf i = get_or file i pagebuf

-- The loop of `buildHeap` that reads two records from each page, with `left` pages to go.
unfoldable pub read_records :
    ℕ → List (List ℕ) → (recordnum left i count : ℕ) → List ℕ → HeapArray → Option (HeapArray × ℕ)
read_records size file recordnum zero i count pagebuf a = some (a, count)
read_records size file recordnum (suc left) i count pagebuf a =
    let page = read_page file pagebuf i in
    do
      a' ← store size a count (strncpy size page)
      if recordnum == count then some (a', count) else do
        a'' ← store size a' (count + 1) (strncpy size (drop size page))
        read_records size file recordnum left (i + 1) (count + 2) page a''

-- `buildHeap(inputfp, heaparray)`
unfoldable pub build_heap :
    ℕ → List (List ℕ) → (pagenum recordnum : ℕ) → List ℕ → HeapArray → Option HeapArray
build_heap size file pagenum recordnum pagebuf a = do
  (a', count) ← read_records size file recordnum pagenum 1 1 pagebuf a
  heapify_down size (count / 2) recordnum (count / 2) a'

-- `emptypage`, as far as a record's copy reads it
unfoldable pub empty_record : ℕ → Record
empty_record size = replicate size 255

-- One turn of the loop of `makeSortedFile`, for record `i`: the record that goes out, and the array
-- that is left.
unfoldable pub take_root : ℕ → (i : ℕ) → HeapArray → Option (Record × HeapArray)
take_root size i a = do
  root ← get_elem? a 1
  last ← get_elem? a i
  a' ← store size a 1 last
  a'' ← store size a' i (empty_record size)
  b ← heapify_down size ((i - 1) / 2) (i - 1) ((i - 1) / 2) a''
  some (strncpy size root, b)

-- The loop of `makeSortedFile`: the records in the order in which they are put into pages.
unfoldable pub make_sorted : ℕ → (i : ℕ) → HeapArray → Option (List Record)
make_sorted size zero a = some []
make_sorted size (suc i) a = do
  (root, a') ← take_root size (suc i) a
  rest ← make_sorted size i a'
  some (root ∷ rest)
