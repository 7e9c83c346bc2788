-- ===== src/MsgQ/Queued.antt =====
-- The messages that a queue holds.
use android_device_samsung_d.Common.{ℕ, ◌≡◌, refl, ap, Bool, none, some, List, [], ◌∷◌, ◌++◌}
use android_device_samsung_d.LinkedList.Chain.{Cell, Holds, Returns}
use android_device_samsung_d.LinkedList.Memory.{
  Heap, Memory, Run, ok, fault, out_of_fuel, Cmd, and_then,
}
use android_device_samsung_d.LinkedList.Operations.{Handle}
use android_device_samsung_d.MsgQ.Operations.{QHandle}

-- The messages of the cells, the oldest first.
unfoldable pub queued : List Cell → List ℕ
queued [] = []
queued (c ∷ cs) = queued cs ++ c.data_ptr ∷ []

pub queued-last : (cs : List Cell) (c : Cell) → queued (cs ++ c ∷ []) ≡ c.data_ptr ∷ queued cs
unfolding queued
queued-last [] c = refl
queued-last (d ∷ cs) c = ap (λ ms. ms ++ d.data_ptr ∷ []) (queued-last cs c)

-- The list of a queue holds messages.
pub record Queues (h : Heap) (l : Handle) (ms : List ℕ) : Type 0 where
  pub cells : List Cell
  pub holds : Holds h l cells
  pub order : queued cells ≡ ms

-- A queue that holds messages and is in a mode.
abbrev pub QueueHolds : Heap → QHandle → Bool → List ℕ → Type 0
QueueHolds h none u ms = ⊥
QueueHolds h (some q) u ms = Queues h q.msg_list ms × (q.unblocked ≡ u)

pub Returns-then :
    {A B : Type 0} {P : A → Memory → Type 0} (Q : B → Memory → Type 0) (r : Run A) (k : A → Cmd B)
    → Returns P r
    → ((a : A) (n : Memory) → P a n → Returns Q (k a n))
    → Returns Q (and_then r k)
Returns-then Q (ok a m) k p f = f a m p
Returns-then Q fault k p f = p
Returns-then Q out_of_fuel k p f = p
