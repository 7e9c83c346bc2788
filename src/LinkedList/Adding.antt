-- ===== src/LinkedList/Adding.antt =====
-- `linked_list_add` puts a new element in front.
use android_device_samsung_d.Common.{
  ℕ, ◌≡◌, refl, ◌∙◌, ◌≢◌, false, none, some, List, [], ◌∷◌, arith, ◌==◌, ==_ne,
}
use android_device_samsung_d.LinkedList.Chain.{
  Cell, first, has, element, Chain, IsList, frame-write, has_of_none, Holds, Returns, set_next-ok,
  set_prev-ok, write-same, write-other,
}
use android_device_samsung_d.LinkedList.Memory.{null_ptr, ListState, Heap, Memory, write}
use android_device_samsung_d.LinkedList.Operations.{
  ListErr, success, Handle, insert_head, linked_list_add,
}

abbrev pub new_cell : ℕ → ℕ → ℕ → Cell
new_cell elem d f = record { addr = elem; data_ptr = d; dealloc_func = f }

-- The heap after `elem->next = p_head` on the new element.
abbrev linked : Heap → ℕ → ℕ → ℕ → ℕ → Heap
linked h elem head d f =
    write (write h elem (some (element null_ptr null_ptr (new_cell elem d f)))) elem
      (some (element head null_ptr (new_cell elem d f)))

linked-Chain :
    (h : Heap) (elem head d f stop before : ℕ) (cs : List Cell)
    → Chain h stop before cs
    → has elem cs ≡ false
    → Chain (linked h elem head d f) stop before cs
linked-Chain h elem head d f stop before cs t out =
    frame-write _ elem _ stop before cs (frame-write h elem _ stop before cs t out) out

-- The previous head gets its `prev`.
set_first_prev :
    (h : Heap) (stop before before' : ℕ) (c : Cell) (cs : List Cell)
    → Chain h stop before (c ∷ cs)
    → Chain (write h c.addr (some (element (first stop cs) before' c))) stop before' (c ∷ cs)
set_first_prev h stop before before' c cs (live, holds, out, t) =
    (live, write-same h c.addr _, out, frame-write h c.addr _ stop c.addr cs t out)

module _ (elem d f : ℕ) (m : Memory) (live : elem ≢ null_ptr) (given : d ≢ null_ptr)
    (fresh : m.heap elem ≡ none) where
  abbrev Added : List Cell → ListErr × Handle → Memory → Type 0
  Added cs (err, l) n =
      (err ≡ success) × Holds n.heap l (new_cell elem d f ∷ cs) × (n.deallocs ≡ m.deallocs)

  -- The memory with the new element, before and after its `next` is set.
  begun : Memory
  begun = record m {
    heap = write m.heap elem (some (element null_ptr null_ptr (new_cell elem d f)));
  }

  joined : ℕ → Memory
  joined head = record m { heap = linked m.heap elem head d f }

  insert_head-Added :
      (l : ListState) (cs : List Cell)
      → IsList m.heap l cs
      → Returns (Added cs) (insert_head l elem d f m)
  unfolding insert_head begun joined has
  insert_head-Added l [] is =
      rw (set_next-ok begun elem _ live (write-same m.heap elem _) l.p_head) (
        rw is.head (
          refl,
          record { head = refl; tail = refl; chain = (live, write-same _ elem _, refl, tt) },
          refl,
        ))
  insert_head-Added l (c ∷ cs) is =
      let out = has_of_none m.heap elem null_ptr null_ptr (c ∷ cs) is.chain fresh in
      let apart : (elem == c.addr) ≡ false = ground arith in
      let kept = linked-Chain m.heap elem c.addr d f null_ptr null_ptr (c ∷ cs) is.chain out in
      rw (set_next-ok begun elem _ live (write-same m.heap elem _) l.p_head) (
        rw (is.head, ==_ne c.addr null_ptr kept.0)
          (rw (set_prev-ok (joined c.addr) c.addr _ kept.0 kept.1 elem) (
            refl,
            record {
              head = refl;
              tail = is.tail;
              chain = (
                live,
                write-other _ c.addr elem _ apart ∙ write-same _ elem _,
                out,
                set_first_prev (joined c.addr).heap null_ptr null_ptr elem c cs kept,
              );
            },
            refl,
          )))

  -- With memory for the element and data to store, `linked_list_add` succeeds and puts the data in front
  -- of the list; no deallocation function is called.
  pub linked_list_add-IsList :
      (l : ListState) (cs : List Cell)
      → IsList m.heap l cs
      → Returns
          (λ (err, l') n.
            (err ≡ success) × Holds n.heap l' (new_cell elem d f ∷ cs) × (n.deallocs ≡ m.deallocs))
          (linked_list_add elem (some l) d f m)
  unfolding linked_list_add
  linked_list_add-IsList l cs is =
      rw (==_ne d null_ptr given, ==_ne elem null_ptr live) (insert_head-Added l cs is)
