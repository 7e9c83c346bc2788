-- ===== src/LinkedList/Chain.antt =====
-- The shape of a doubly linked list in memory.
use android_device_samsung_d.Common.{
  ℕ, ◌≡◌, refl, ◌∙◌, ◌≢◌, Bool, true, false, ◌||◌, Option, none, some, List, [], ◌∷◌, arith, ◌==◌,
  ==_refl, ==_ne,
}
use android_device_samsung_d.LinkedList.Memory.{
  null_ptr, ListElement, ListState, Heap, Memory, Run, ok, fault, out_of_fuel, write, load,
  set_next, set_prev, free,
}
use android_device_samsung_d.LinkedList.Operations.{Handle}

-- An element that the list holds: its address, its data and its deallocation function.
pub record Cell : Type 0 where
  pub addr : ℕ
  pub data_ptr : ℕ
  pub dealloc_func : ℕ

-- The address of the first cell, or where the chain goes on.
abbrev pub first : ℕ → List Cell → ℕ
first stop [] = stop
first stop (c ∷ cs) = c.addr

-- The address of the last cell, or what came before.
abbrev pub last : ℕ → List Cell → ℕ
last before [] = before
last before (c ∷ cs) = last c.addr cs

unfoldable pub has : ℕ → List Cell → Bool
has a [] = false
has a (c ∷ cs) = a == c.addr || has a cs

abbrev pub element : ℕ → ℕ → Cell → ListElement
element next prev c = record {
  next = next;
  prev = prev;
  data_ptr = c.data_ptr;
  dealloc_func = c.dealloc_func;
}

-- From the first cell on, `next` leads through the cells to `stop`, and `prev` back to `before`; the
-- addresses are distinct and none is NULL.
abbrev pub Chain : Heap → ℕ → ℕ → List Cell → Type 0
Chain h stop before [] = Unit
Chain h stop before (c ∷ cs) =
    (c.addr ≢ null_ptr)
    × (h c.addr ≡ some (element (first stop cs) before c))
    × (has c.addr cs ≡ false)
    × Chain h stop c.addr cs

-- A handle holds the cells.
pub record IsList (h : Heap) (l : ListState) (cs : List Cell) : Type 0 where
  pub head : l.p_head ≡ first null_ptr cs
  pub tail : l.p_tail ≡ last null_ptr cs
  pub chain : Chain h null_ptr null_ptr cs

-- A chain survives any change that spares its cells.
pub frame :
    (h g : Heap) (stop before : ℕ) (cs : List Cell)
    → Chain h stop before cs
    → ((a : ℕ) → has a cs ≡ true → g a ≡ h a)
    → Chain g stop before cs
unfolding has
frame h g stop before [] t same = tt
frame h g stop before (c ∷ cs) (live, holds, out, t) same = (
  live,
  same c.addr (rw (==_refl c.addr)) ∙ holds,
  out,
  frame h g stop c.addr cs t (λ a i. same a (ground arith)),
)

pub frame-write :
    (h : Heap) (a : ℕ) (e : Option ListElement) (stop before : ℕ) (cs : List Cell)
    → Chain h stop before cs
    → has a cs ≡ false
    → Chain (write h a e) stop before cs
unfolding write
frame-write h a e stop before cs t out =
    frame h (write h a e) stop before cs t (λ b i. rw (==_ne b a (λ same. cc)))

-- An address that holds no element is no cell's.
pub has_of_none :
    (h : Heap) (a stop before : ℕ) (cs : List Cell)
    → Chain h stop before cs
    → h a ≡ none
    → has a cs ≡ false
unfolding has
has_of_none h a stop before [] t free = refl
has_of_none h a stop before (c ∷ cs) (live, holds, out, t) free =
    rw (==_ne a c.addr (λ same. cc), has_of_none h a stop c.addr cs t free)

-- A handle holds cells.
abbrev pub Holds : Heap → Handle → List Cell → Type 0
Holds h none cs = ⊥
Holds h (some l) cs = IsList h l cs

-- A run returns, with a postcondition.
abbrev pub Returns : {A : Type 0} → (A → Memory → Type 0) → Run A → Type 0
Returns P (ok a m) = P a m
Returns P fault = ⊥
Returns P out_of_fuel = ⊥

module _ (m : Memory) (p : ℕ) (e : ListElement) (live : p ≢ null_ptr)
    (holds : m.heap p ≡ some e) where
  pub load-ok : load p m ≡ ok e m
  unfolding load
  load-ok = rw (==_ne p null_ptr live, holds)

  pub set_next-ok :
      (q : ℕ)
      → set_next p q m ≡ ok tt (record m { heap = write m.heap p (some (record e { next = q })) })
  unfolding set_next
  set_next-ok q = rw load-ok

  pub set_prev-ok :
      (q : ℕ)
      → set_prev p q m ≡ ok tt (record m { heap = write m.heap p (some (record e { prev = q })) })
  unfolding set_prev
  set_prev-ok q = rw load-ok

  pub free-ok : free p m ≡ ok tt (record m { heap = write m.heap p none })
  unfolding free
  free-ok = rw load-ok

pub write-same : (h : Heap) (p : ℕ) (e : Option ListElement) → write h p e p ≡ e
unfolding write
write-same h p e = rw (==_refl p)

pub write-other :
    (h : Heap) (p a : ℕ) (e : Option ListElement) → (a == p) ≡ false → write h p e a ≡ h a
unfolding write
write-other h p a e ne = rw ne
