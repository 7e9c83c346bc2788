-- ===== src/LinkedList/Examples.antt =====
-- Runs of gps/utils/linked_list.c on a list of two elements: 5 was added first, then 7 with the
-- deallocation function 40.
use android_device_samsung_d.Common.{◌≡◌, refl, true, Option, none, some, List, [], ◌∷◌, arith}
use android_device_samsung_d.LinkedList.Adding.{new_cell, linked_list_add-IsList}
use android_device_samsung_d.LinkedList.Chain.{Cell, has, element, IsList, Holds, Returns}
use android_device_samsung_d.LinkedList.Flushing.{IsFlushed, linked_list_flush-IsFlushed}
use android_device_samsung_d.LinkedList.Memory.{
  null_ptr, ListState, Memory, Run, ok, write, load, set_next, set_prev, free,
}
use android_device_samsung_d.LinkedList.Operations.{
  success, list_state, insert_head, linked_list_add, take_tail, linked_list_remove,
  linked_list_flush,
}
use android_device_samsung_d.LinkedList.Removing.{linked_list_remove-last}

abbrev five : Cell
five = record { addr = 100; data_ptr = 5; dealloc_func = null_ptr }

abbrev seven : Cell
seven = record { addr = 200; data_ptr = 7; dealloc_func = 40 }

abbrev cells : List Cell
cells = seven ∷ five ∷ []

abbrev two : Memory
two = record {
  heap =
      write (write (λ _. none) 100 (some (element null_ptr 200 five))) 200
        (some (element 100 null_ptr seven));
  deallocs = [];
}

abbrev handle : ListState
handle = record { p_head = 200; p_tail = 100 }

two-IsList : IsList two.heap handle cells
unfolding write has
two-IsList = record {
  head = refl;
  tail = refl;
  chain = ((λ e. omega (arith, e)), refl, refl, ((λ e. omega (arith, e)), refl, refl, tt));
}

-- What the code returns on it, evaluated.
abbrev value : {A : Type 0} → Run A → Option A
value (ok a m) = some a
value _ = none

add-two :
    value (linked_list_add 300 (some handle) 9 null_ptr two) ≡ some (success, list_state 300 100)
unfolding linked_list_add insert_head set_next set_prev load write
add-two = refl

remove-two :
    value (linked_list_remove (some handle) true two) ≡ some (success, list_state 200 200, some 5)
unfolding linked_list_remove take_tail set_next set_prev load free write
remove-two = refl

linked_list_add-IsList_example :
    Returns
      (λ (err, l') n.
        (err ≡ success) × Holds n.heap l' (new_cell 300 9 40 ∷ cells) × (n.deallocs ≡ []))
      (linked_list_add 300 (some handle) 9 40 two)
unfolding write
linked_list_add-IsList_example =
    linked_list_add-IsList 300 9 40 two (λ e. omega (arith, e)) (λ e. omega (arith, e)) refl handle
      cells two-IsList

linked_list_remove-last_example :
    Returns
      (λ (err, l', d) n.
        (err ≡ success)
        × (d ≡ some 5)
        × Holds n.heap l' (seven ∷ [])
        × (n.heap 100 ≡ none)
        × (n.deallocs ≡ []))
      (linked_list_remove (some handle) true two)
linked_list_remove-last_example = linked_list_remove-last two handle five (seven ∷ []) two-IsList

linked_list_flush-IsFlushed_example :
    Returns
      (λ (err, l') n. (err ≡ success) × Holds n.heap l' [] × IsFlushed two n cells)
      (linked_list_flush 3 (some handle) two)
linked_list_flush-IsFlushed_example =
    linked_list_flush-IsFlushed two handle cells two-IsList 3 (omega arith)
