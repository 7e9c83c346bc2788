-- ===== src/LinkedList/Memory.antt =====
-- The memory of gps/utils/linked_list.c: list elements at addresses, and commands that read, write
-- and free them.
use android_device_samsung_d.Common.{
  ℕ, Option, none, some, List, [], ◌∷◌, ◌++◌, ◌==◌, if◌then◌else◌,
}

abbrev pub null_ptr : ℕ
null_ptr = 0

-- `list_element`; `data_ptr` and `dealloc_func` are addresses that may be NULL.
pub record ListElement : Type 0 where
  pub next : ℕ
  pub prev : ℕ
  pub data_ptr : ℕ
  pub dealloc_func : ℕ

-- `list_state`.
pub record ListState : Type 0 where
  pub p_head : ℕ
  pub p_tail : ℕ

abbrev pub Heap : Type 0
Heap = ℕ → Option ListElement

-- The elements, and the calls of the deallocation functions so far: the function and its argument.
pub record Memory : Type 0 where
  pub heap : Heap
  pub deallocs : List (ℕ × ℕ)

-- A run ends in a result, in a fault (a read through NULL or of an address that holds no element),
-- or without fuel.
pub data Run (A : Type 0) : Type 0 where
  ok : A → Memory → Run A
  fault : Run A
  out_of_fuel : Run A

abbrev pub Cmd : Type 0 → Type 0
Cmd A = Memory → Run A

abbrev pub pure : {A : Type 0} → A → Cmd A
pure a m = ok a m

module _ {A B : Type 0} where
  abbrev pub and_then : Run A → (A → Cmd B) → Run B
  and_then (ok a m) k = k a m
  and_then fault k = fault
  and_then out_of_fuel k = out_of_fuel

  infixl 5 ◌>>=◌ ◌>>◌
  abbrev pub ◌>>=◌ : Cmd A → (A → Cmd B) → Cmd B
  ◌>>=◌ c k m = and_then (c m) k

  abbrev pub ◌>>◌ : Cmd A → Cmd B → Cmd B
  ◌>>◌ c d m = and_then (c m) λ _. d

unfoldable pub write : Heap → ℕ → Option ListElement → Heap
write h p c a = if a == p then c else h a

abbrev pub store : ℕ → Option ListElement → Cmd (Unit {0})
store p c m = ok tt (record m { heap = write m.heap p c })

found_at : Option ListElement → Cmd ListElement
found_at none m = fault
found_at (some e) m = ok e m

-- `*p`.
unfoldable pub load : ℕ → Cmd ListElement
unfolding found_at
load p m = if p == null_ptr then fault else found_at (m.heap p) m

-- `p->next = q`.
unfoldable pub set_next : ℕ → ℕ → Cmd (Unit {0})
set_next p q = do e ← load p; store p (some (record e { next = q }))

-- `p->prev = q`.
unfoldable pub set_prev : ℕ → ℕ → Cmd (Unit {0})
set_prev p q = do e ← load p; store p (some (record e { prev = q }))

unfoldable pub free : ℕ → Cmd (Unit {0})
free p = load p >> store p none

-- A call of a deallocation function, if there is one.
unfoldable pub dealloc : ℕ → ℕ → Cmd (Unit {0})
dealloc f d m =
    if f == null_ptr then ok tt m else ok tt (record m { deallocs = m.deallocs ++ (f, d) ∷ [] })
