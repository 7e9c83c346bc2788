-- ===== src/LinkedList/Removing.antt =====
-- `linked_list_remove` takes the element at the tail.
use android_device_samsung_d.Common.{
  ℕ, ◌≡◌, refl, sym, ap, ◌∙◌, ◌≢◌, true, false, ◌||◌, Option, none, some, List, [], ◌∷◌, ◌++◌,
  arith, ◌==◌, ==_ne,
}
use android_device_samsung_d.LinkedList.Chain.{
  Cell, first, last, has, element, Chain, IsList, frame-write, Holds, Returns, load-ok, set_next-ok,
  free-ok, write-same, write-other,
}
use android_device_samsung_d.LinkedList.Memory.{null_ptr, ListState, Heap, Memory, write}
use android_device_samsung_d.LinkedList.Operations.{
  ListErr, success, Handle, take_tail, linked_list_remove,
}

-- The last cell of a chain, and what stands before it.
pub last-append : (before : ℕ) (cs : List Cell) (c : Cell) → last before (cs ++ c ∷ []) ≡ c.addr
last-append before [] c = refl
last-append before (d ∷ cs) c = last-append d.addr cs c

first-append : (stop : ℕ) (cs : List Cell) (c : Cell) → first stop (cs ++ c ∷ []) ≡ first c.addr cs
first-append stop [] c = refl
first-append stop (d ∷ cs) c = refl

has-append : (a : ℕ) (cs : List Cell) (c : Cell) → has a (cs ++ c ∷ []) ≡ (has a cs || a == c.addr)
unfolding has
has-append a [] c = ground arith
has-append a (d ∷ cs) c = rw (has-append a cs c) (ground arith)

-- A chain with a cell at its end is a chain up to the cell, which points back to its end.
pub record IsSplit (h : Heap) (stop before : ℕ) (cs : List Cell) (c : Cell) : Type 0 where
  pub front : Chain h c.addr before cs
  pub live : c.addr ≢ null_ptr
  pub holds : h c.addr ≡ some (element stop (last before cs) c)
  pub out : has c.addr cs ≡ false

pub Chain-IsSplit :
    (h : Heap) (stop before : ℕ) (cs : List Cell) (c : Cell)
    → Chain h stop before (cs ++ c ∷ [])
    → IsSplit h stop before cs c
unfolding has
Chain-IsSplit h stop before [] c (live, holds, out, t) = record {
  front = tt;
  live = live;
  holds = holds;
  out = refl;
}
Chain-IsSplit h stop before (d ∷ cs) c (live, holds, out, t) =
    let s = Chain-IsSplit h stop d.addr cs c t in
    let apart = sym (has-append d.addr cs c) ∙ out in
    let link = ap (λ t. some (element t before d)) (first-append stop cs c) in
    record {
      front = (live, holds ∙ link, ground arith, s.front);
      live = s.live;
      holds = s.holds;
      out = (ground arith);
    }

-- The `next` of the last cell is redirected.
set_last_next :
    (h : Heap) (stop stop' before : ℕ) (cs : List Cell) (c : Cell)
    → Chain h stop before (cs ++ c ∷ [])
    → Chain (write h c.addr (some (element stop' (last before cs) c))) stop' before (cs ++ c ∷ [])
unfolding has
set_last_next h stop stop' before [] c (live, holds, out, t) =
    (live, write-same h c.addr _, refl, tt)
set_last_next h stop stop' before (d ∷ cs) c (live, holds, out, t) =
    let apart = sym (has-append d.addr cs c) ∙ out in
    let link = λ (s : ℕ). ap (λ t. some (element t before d)) (first-append s cs c) in
    (
      live,
      write-other h c.addr d.addr _ (ground arith) ∙ holds ∙ link stop ∙ sym (link stop'),
      out,
      set_last_next h stop stop' d.addr cs c t,
    )

-- A list is empty or ends in an element.
pub data Ending : List Cell → Type 0 where
  nothing : Ending []
  ends : (bs : List Cell) (b : Cell) → Ending (bs ++ b ∷ [])

Ending-cons : (c : Cell) {cs : List Cell} → Ending cs → Ending (c ∷ cs)
Ending-cons c nothing = ends [] c
Ending-cons c (ends bs b) = ends (c ∷ bs) b

pub ending : (cs : List Cell) → Ending cs
ending [] = nothing
ending (c ∷ cs) = Ending-cons c (ending cs)

-- What `linked_list_remove` owes on a list that ends in a cell: the data of the cell, the handle of
-- the others, and the cell's element freed.
abbrev Removed : Memory → List Cell → Cell → ListErr × Handle × Option ℕ → Memory → Type 0
Removed m cs c (err, l, d) n =
    (err ≡ success)
    × (d ≡ some c.data_ptr)
    × Holds n.heap l cs
    × (n.heap c.addr ≡ none)
    × (n.deallocs ≡ m.deallocs)

module _ (m : Memory) (l : ListState) (c : Cell) where
  take_tail-one : IsList m.heap l (c ∷ []) → Returns (Removed m [] c) (take_tail l m)
  unfolding take_tail
  take_tail-one is =
      let live = is.chain.0 in
      let holds = is.chain.1 in
      rw (is.tail, load-ok m c.addr _ live holds)
        (rw (free-ok m c.addr _ live holds) (
          refl,
          refl,
          record { head = refl; tail = refl; chain = tt },
          write-same m.heap c.addr none,
          refl,
        ))

  -- The memory without the link from the new last cell.
  unlinked : List Cell → Cell → Memory
  unlinked bs b = record m {
    heap = write m.heap b.addr (some (element null_ptr (last null_ptr bs) b));
  }

  take_tail-more :
      (bs : List Cell) (b : Cell)
      → IsList m.heap l ((bs ++ b ∷ []) ++ c ∷ [])
      → Returns (Removed m (bs ++ b ∷ []) c) (take_tail l m)
  unfolding take_tail unlinked
  take_tail-more bs b is =
      let s = Chain-IsSplit m.heap null_ptr null_ptr (bs ++ b ∷ []) c is.chain in
      let t = Chain-IsSplit m.heap c.addr null_ptr bs b s.front in
      let at_tail = is.tail ∙ last-append null_ptr (bs ++ b ∷ []) c in
      let holds = s.holds ∙ ap (λ p. some (element null_ptr p c)) (last-append null_ptr bs b) in
      let out = sym (has-append c.addr bs b) ∙ s.out in
      let apart : (c.addr == b.addr) ≡ false = ground arith in
      let kept = write-other m.heap b.addr c.addr _ apart ∙ holds in
      let linked = set_last_next m.heap c.addr null_ptr null_ptr bs b s.front in
      let head =
        is.head
        ∙ first-append null_ptr (bs ++ b ∷ []) c
        ∙ first-append c.addr bs b
        ∙ sym (first-append null_ptr bs b) in
      rw (at_tail, load-ok m c.addr _ s.live holds)
        (rw (==_ne b.addr null_ptr t.live, set_next-ok m b.addr _ t.live t.holds null_ptr)
          (rw (free-ok (unlinked bs b) c.addr (element null_ptr b.addr c) s.live kept) (
            refl,
            refl,
            record {
              head = head;
              tail = sym (last-append null_ptr bs b);
              chain = frame-write _ c.addr none null_ptr null_ptr (bs ++ b ∷ []) linked s.out;
            },
            write-same _ c.addr none,
            refl,
          )))

  -- A list that ends in a cell has a tail.
  p_tail_live : (cs : List Cell) → IsList m.heap l (cs ++ c ∷ []) → l.p_tail ≢ null_ptr
  p_tail_live cs is same =
      (Chain-IsSplit m.heap null_ptr null_ptr cs c is.chain).live
        (sym (last-append null_ptr cs c) ∙ sym is.tail ∙ same)

  -- On a list that ends in a cell, `linked_list_remove` succeeds and gives out the data of this cell; the
  -- list holds the other cells in their order, the element is freed, and no deallocation function is
  -- called.
  pub linked_list_remove-last :
      (cs : List Cell)
      → IsList m.heap l (cs ++ c ∷ [])
      → Returns
          (λ (err, l', d) n.
            (err ≡ success)
            × (d ≡ some c.data_ptr)
            × Holds n.heap l' cs
            × (n.heap c.addr ≡ none)
            × (n.deallocs ≡ m.deallocs))
          (linked_list_remove (some l) true m)
  unfolding linked_list_remove
  linked_list_remove-last cs is =
      rw (==_ne l.p_tail null_ptr (p_tail_live cs is)) (at_end cs is (ending cs))
    where
      at_end :
          (cs : List Cell)
          → IsList m.heap l (cs ++ c ∷ [])
          → Ending cs
          → Returns (Removed m cs c) (take_tail l m)
      at_end cs is nothing = take_tail-one is
      at_end cs is (ends bs b) = take_tail-more bs b is

-- The head of a list that ends in a cell is not NULL.
pub p_head_live :
    (m : Memory) (l : ListState) (cs : List Cell) (c : Cell)
    → IsList m.heap l (cs ++ c ∷ [])
    → (l.p_head == null_ptr) ≡ false
p_head_live m l [] c is = rw is.head (==_ne c.addr null_ptr is.chain.0)
p_head_live m l (d ∷ cs) c is = rw is.head (==_ne d.addr null_ptr is.chain.0)
