-- ===== src/LinkedList/Flushing.antt =====
-- `linked_list_flush` frees every element of a list.
use android_device_samsung_d.Common.{
  ℕ, zero, suc, ◌<◌, ◌≡◌, refl, sym, ◌∙◌, true, none, some, List, [], ◌∷◌, ◌++◌, append-nil,
  append_assoc, arith, ◌==◌, if◌then◌else◌, ==_ne, length,
}
use android_device_samsung_d.LinkedList.Chain.{
  Cell, first, has, Chain, IsList, frame-write, Holds, Returns, load-ok, free-ok,
}
use android_device_samsung_d.LinkedList.Memory.{
  null_ptr, ListState, Memory, Run, ok, fault, out_of_fuel, pure, and_then, write, dealloc,
}
use android_device_samsung_d.LinkedList.Operations.{
  ListErr, success, Handle, flush_loop, linked_list_flush, linked_list_destroy,
}

-- The calls that a list's deallocation functions are owed, from the head on.
abbrev pub owed : ℕ → ℕ → List (ℕ × ℕ)
owed f d = if f == null_ptr then [] else (f, d) ∷ []

unfoldable pub all_owed : List Cell → List (ℕ × ℕ)
all_owed [] = []
all_owed (c ∷ cs) = owed c.dealloc_func c.data_ptr ++ all_owed cs

-- The cells are freed and no other address is touched; each deallocation function was called once, on
-- the data of its element, in the order of the list.
pub record IsFlushed (m n : Memory) (cs : List Cell) : Type 0 where
  pub freed : (a : ℕ) → n.heap a ≡ (if has a cs then none else m.heap a)
  pub called : n.deallocs ≡ m.deallocs ++ all_owed cs

pub Returns-map :
    {A : Type 0} {P Q : A → Memory → Type 0} (r : Run A)
    → Returns P r
    → ((a : A) (n : Memory) → P a n → Q a n)
    → Returns Q r
Returns-map (ok a m) p f = f a m p
Returns-map fault p f = p
Returns-map out_of_fuel p f = p

-- A memory after the deallocation of a cell's data, and after its element is freed.
abbrev paid : Memory → Cell → Memory
paid m c = record m { deallocs = m.deallocs ++ owed c.dealloc_func c.data_ptr }

abbrev dropped : Memory → Cell → Memory
dropped m c = record (paid m c) { heap = write m.heap c.addr none }

dealloc-ok : (m : Memory) (c : Cell) → dealloc c.dealloc_func c.data_ptr m ≡ ok tt (paid m c)
unfolding dealloc
dealloc-ok m c = ground (arith, append-nil m.deallocs)

IsFlushed-cons :
    (m n : Memory) (c : Cell) (cs : List Cell)
    → IsFlushed (dropped m c) n cs
    → IsFlushed m n (c ∷ cs)
unfolding has all_owed write
IsFlushed-cons m n c cs is = record {
  freed = λ a. is.freed a ∙ ground arith;
  called = is.called ∙ append_assoc m.deallocs _ _;
}

flush_loop-IsFlushed :
    (k : ℕ) (m : Memory) (before : ℕ) (cs : List Cell)
    → Chain m.heap null_ptr before cs
    → length cs < k
    → Returns (λ _ n. IsFlushed m n cs) (flush_loop k (first null_ptr cs) m)
unfolding flush_loop has all_owed
flush_loop-IsFlushed zero m before cs t enough = omega arith
flush_loop-IsFlushed (suc k) m before [] t enough = record {
  freed = λ a. refl;
  called = sym (append-nil m.deallocs);
}
flush_loop-IsFlushed (suc k) m before (c ∷ cs) (live, holds, out, t) enough =
    let rest = frame-write m.heap c.addr none null_ptr c.addr cs t out in
    let go = flush_loop-IsFlushed k (dropped m c) c.addr cs rest (omega arith) in
    rw (==_ne c.addr null_ptr live, load-ok m c.addr _ live holds)
      (rw (dealloc-ok m c) (
        rw (free-ok (paid m c) c.addr _ live holds)
          (Returns-map _ go (λ _ n is. IsFlushed-cons m n c cs is))))

-- A run followed by a fixed result.
Returns-pure :
    {A B : Type 0} {P : A → Memory → Type 0} (Q : B → Memory → Type 0) (r : Run A) (b : B)
    → Returns P r
    → ((a : A) (n : Memory) → P a n → Q b n)
    → Returns Q (and_then r λ _. pure b)
Returns-pure Q (ok a m) b p f = f a m p
Returns-pure Q fault b p f = p
Returns-pure Q out_of_fuel b p f = p

module _ (m : Memory) (l : ListState) (cs : List Cell) (is : IsList m.heap l cs) (fuel : ℕ)
    (enough : length cs < fuel) where
  abbrev Emptied : ListErr × Handle → Memory → Type 0
  Emptied (err, l') n = (err ≡ success) × Holds n.heap l' [] × IsFlushed m n cs

  abbrev Destroyed : ListErr × Handle → Memory → Type 0
  Destroyed (err, l') n = (err ≡ success) × (l' ≡ none) × IsFlushed m n cs

  flush_loop-first : Returns (λ _ n. IsFlushed m n cs) (flush_loop fuel l.p_head m)
  flush_loop-first = rw is.head (flush_loop-IsFlushed fuel m null_ptr cs is.chain enough)

  -- With one unit of fuel more than elements, `linked_list_flush` on a list succeeds and leaves the empty
  -- list; exactly the elements are freed, and the deallocation functions that are not NULL are called
  -- once each, on the data of their elements, from the head to the tail.
  pub linked_list_flush-IsFlushed : Returns Emptied (linked_list_flush fuel (some l) m)
  unfolding linked_list_flush
  linked_list_flush-IsFlushed =
      Returns-pure Emptied (flush_loop fuel l.p_head m) _ flush_loop-first
        λ _ n done. (refl, record { head = refl; tail = refl; chain = tt }, done)

  -- With the same fuel, `linked_list_destroy` on the handle of a list succeeds, leaves a NULL handle and
  -- releases the elements as `linked_list_flush` does.
  pub linked_list_destroy-IsFlushed : Returns Destroyed (linked_list_destroy fuel true (some l) m)
  unfolding linked_list_destroy
  linked_list_destroy-IsFlushed =
      Returns-pure Destroyed (linked_list_flush fuel (some l) m) _ linked_list_flush-IsFlushed
        λ _ n done. (refl, refl, done.2)
