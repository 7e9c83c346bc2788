-- ===== src/Agps/Found.antt =====
-- The subscriber that `unsubscribeRsrc` finds: its address leads back to it, and the others are
-- told apart from it as they are from the object of the caller.
use android_device_samsung_d.Common.{
  ℕ, suc, ◌≡◌, refl, ap, inl, inr, Bool, true, false, Option, none, some, List, [], ◌∷◌, arith,
  ◌==◌, ==_refl, ==_ne, Bool-cases, length, take, any, eq_bytes,
}
use android_device_samsung_d.Agps.Equality.{matches, comparable}
use android_device_samsung_d.Agps.Searches.{split_first}
use android_device_samsung_d.Agps.SubscriberList.{behind}
use android_device_samsung_d.Agps.Subscribers.{id_of, c_string, same_ipv6, lookup_addr}
use android_device_samsung_d.Agps.Types.{Subscriber, bit_subscriber, Node}
use android_device_samsung_d.Agps.WellFormed.{has_addr, Distinct}

-- What a split says of the element that it found.
pub record IsFound (p : Node → Bool) (ns : List Node) (n : Node) (rest : List Node) : Type 0 where
  pub passes : p n ≡ true
  pub resolves : lookup_addr n.addr ns ≡ some n.sub
  pub gone : has_addr n.addr rest ≡ false
  pub held : has_addr n.addr ns ≡ true
  pub shorter : length ns ≡ suc (length rest)

abbrev pub FoundBy : (Node → Bool) → List Node → Option (Node × List Node) → Type 0
FoundBy p ns none = any p ns ≡ false
FoundBy p ns (some (n, rest)) = IsFound p ns n rest

FoundBy-behind :
    (p : Node → Bool) (x : Node) (ns : List Node) (found : Option (Node × List Node))
    → p x ≡ false
    → has_addr x.addr ns ≡ false
    → FoundBy p ns found
    → FoundBy p (x ∷ ns) (behind x found)
unfolding lookup_addr has_addr
FoundBy-behind p x ns none e out f = rw e f
FoundBy-behind p x ns (some (n, rest)) e out f =
    let apart : (x.addr == n.addr) ≡ false = ==_ne x.addr n.addr (λ same. cc f.held) in
    record {
      passes = f.passes;
      resolves = rw apart f.resolves;
      gone = rw apart f.gone;
      held = rw apart f.held;
      shorter = ap suc f.shorter;
    }

pub split_first-FoundBy :
    (p : Node → Bool) (b : ℕ) (ns : List Node) → Distinct b ns → FoundBy p ns (split_first p ns)
unfolding split_first lookup_addr has_addr
split_first-FoundBy p b [] d = refl
split_first-FoundBy p b (x ∷ ns) (low, out, d) = elim (Bool-cases (p x)) [
  | inl e ↦ rw e (record {
    passes = e;
    resolves = rw (==_refl x.addr);
    gone = out;
    held = rw (==_refl x.addr);
    shorter = refl;
  })
  | inr e ↦ rw e (FoundBy-behind p x ns (split_first p ns) e out (split_first-FoundBy p b ns d))
]

eq_bytes_eq : (a b : List ℕ) → eq_bytes a b ≡ true → a ≡ b
eq_bytes_eq [] [] h = refl
eq_bytes_eq (x ∷ xs) (y ∷ ys) h = ground (arith, eq_bytes_eq xs ys)
eq_bytes_eq [] (y ∷ ys) h = cc h
eq_bytes_eq (x ∷ xs) [] h = cc h

same_ipv6-right : (a b c : List ℕ) → same_ipv6 b c ≡ true → same_ipv6 a b ≡ same_ipv6 a c
unfolding same_ipv6
same_ipv6-right a b c h = ap (eq_bytes (c_string (take 16 a))) (eq_bytes_eq _ _ h)

-- An object that matches the caller's is told apart from the others as the caller's is.
pub matches-found :
    (x n s : Subscriber)
    → matches n s ≡ true
    → comparable x s ≡ true
    → comparable x n ≡ true
    → matches x n ≡ matches x s
unfolding matches comparable id_of
matches-found (bit_subscriber id v6) (bit_subscriber id' v6') (bit_subscriber id'' v6'') h c d =
    ground (arith, same_ipv6-right v6 v6' v6'')
matches-found (bit_subscriber id v6) (bit_subscriber id' v6') s h c d = ground arith
matches-found (bit_subscriber id v6) n s h c d = ground arith
matches-found _ (bit_subscriber id' v6') (bit_subscriber id'' v6'') h c d = ground arith
matches-found _ n s h c d = ground arith
