-- ===== src/Eventlog/Ring/Window.antt =====
-- The ring holds the last entries appended, in their order.
use nuts.Base.{
  refl, ap, ◌∙◌, ◌≡◌, ◌<◌, ◌≤◌, ℕ, suc, ◌+◌, ◌-◌, ◌%◌, [], ◌∷◌, ◌++◌, ltb, get_or, set, lt→ltb, ◌≢◌,
  length, drop, arith, tabulate, tabulate-eq, tabulate-suc, tabulate-last, tabulate-drop,
  tabulate-first, mod_once, wrap_next, get_or-set_self, get_or-set_ne, length-set, length-replicate,
  length-tabulate, mod-lt, false,
}
use nuts.Base.Int.{ℤ}
use nuts.Eventlog.{EventLogEntry}
use nuts.Eventlog.Ring.{RingLog, in_order, store_entry, forget_oldest, new_ring_log}

pub record IsValid {P : Type 0} (r : RingLog P) : Type 0 where
  pub storage : length r.entries ≡ r.size
  pub positive : 0 < r.size
  pub head_in : r.head < r.size
  pub count_in : r.count ≤ r.size

-- The position that the loops read at step `i`.
abbrev at : {P : Type 0} → RingLog P → ℕ → ℕ
at r i = (r.head + r.size - r.count + i) % r.size

module _ {P : Type 0} (zero_entry : EventLogEntry P) where
  pub store_entry-IsValid :
      (e : EventLogEntry P) (r : RingLog P) → IsValid r → IsValid (store_entry zero_entry e r)
  unfolding store_entry
  store_entry-IsValid e r v = record {
    storage = ground (arith, v.storage, length-set r.entries r.head e);
    positive = v.positive;
    head_in = mod-lt (r.head + 1) v.positive;
    count_in = ground (arith, v.count_in);
  }

  pub length-in_order : (r : RingLog P) → length (in_order zero_entry r) ≡ r.count
  unfolding in_order
  length-in_order r = length-tabulate _ r.count

  -- The slot that is written comes last.
  at_last : (r : RingLog P) → IsValid r → at r r.count ≡ r.head
  at_last r v = ground (
    arith,
    v.head_in,
    v.count_in,
    mod_once (r.head + r.size - r.count + r.count) r.size (omega (arith, v.head_in, v.count_in)),
  )

  at-apart : (r : RingLog P) (i : ℕ) → IsValid r → r.count < r.size → i < r.count → r.head ≢ at r i
  at-apart r i v h l = ground (
    arith,
    v.head_in,
    h,
    l,
    mod_once (r.head + r.size - r.count + i) r.size (omega (arith, v.head_in, h, l)),
  )

  -- One more entry: the positions of the older ones stay.
  at-grown :
      (r : RingLog P) (i : ℕ)
      → IsValid r
      → r.count < r.size
      → i ≤ r.count
      → ((r.head + 1) % r.size + r.size - suc r.count + i) % r.size ≡ at r i
  at-grown r i v h l = ground (
    arith,
    v.head_in,
    h,
    l,
    mod_once (r.head + 1) r.size (omega (arith, v.head_in, v.positive)),
    mod_once (r.head + r.size - r.count + i) r.size (omega (arith, v.head_in, h, l)),
    mod_once ((r.head + 1) % r.size + r.size - suc r.count + i) r.size
        (omega (arith, mod-lt (r.head + 1) v.positive, h, l)),
  )

  pub in_order-grown :
      (e : EventLogEntry P) (r : RingLog P)
      → IsValid r
      → r.count < r.size
      → in_order zero_entry (store_entry zero_entry e r) ≡ in_order zero_entry r ++ (e ∷ [])
  unfolding in_order store_entry
  in_order-grown e r v h =
      let now = λ (i : ℕ). ((r.head + 1) % r.size + r.size - suc r.count + i) % r.size in
      let written = λ (i : ℕ). get_or (set r.entries r.head e) (now i) zero_entry in
      let older : tabulate written r.count ≡ in_order zero_entry r =
        tabulate-eq written (λ i. get_or r.entries (at r i) zero_entry) r.count
          (λ i l.
            ap (λ k. get_or (set r.entries r.head e) k zero_entry)
              (at-grown r i v h (omega (arith, l)))
            ∙ get_or-set_ne r.entries e zero_entry (at-apart r i v h l)) in
      let newest : written r.count ≡ e =
        ap (λ k. get_or (set r.entries r.head e) k zero_entry)
          (at-grown r r.count v h (omega arith) ∙ at_last r v)
        ∙ get_or-set_self r.entries r.head e zero_entry (omega (arith, v.storage, v.head_in)) in
      rw (lt→ltb r.count r.size h) (tabulate-suc written r.count ∙ cc (older, newest))

  -- A full ring: every position moves by one.
  at-full :
      (r : RingLog P) (i : ℕ)
      → r.count ≡ r.size
      → ((r.head + 1) % r.size + r.size - r.count + i) % r.size ≡ at r (suc i)
  at-full r i h =
      ap (λ k. k % r.size) {x = (r.head + 1) % r.size + r.size - r.count + i}
        {y = (r.head + 1) % r.size + i} (omega (arith, h))
      ∙ wrap_next r.head i r.size
      ∙ ap (λ k. k % r.size) {x = r.head + suc i} {y = r.head + r.size - r.count + suc i}
          (omega (arith, h))

  at_other :
      (r : RingLog P) (i : ℕ) → IsValid r → r.count ≡ r.size → 0 < i → i < r.count → r.head ≢ at r i
  at_other r i v h p l = ground (
    arith,
    v.head_in,
    h,
    p,
    l,
    mod_once (r.head + r.size - r.count + i) r.size (omega (arith, v.head_in, h, l)),
  )

  pub in_order-full :
      (e : EventLogEntry P) (r : RingLog P)
      → IsValid r
      → r.count ≡ r.size
      → in_order zero_entry (store_entry zero_entry e r)
        ≡ drop 1 (in_order zero_entry r) ++ (e ∷ [])
  unfolding in_order store_entry
  in_order-full e r v h =
      let now = λ (i : ℕ). ((r.head + 1) % r.size + r.size - r.count + i) % r.size in
      let written = λ (i : ℕ). get_or (set r.entries r.head e) (now i) zero_entry in
      let held : 0 < r.count = omega (arith, v.positive, h) in
      let before = λ (i : ℕ). get_or r.entries (at r i) zero_entry in
      let older : tabulate written (r.count - 1) ≡ drop 1 (in_order zero_entry r) =
        tabulate-eq written (λ i. before (suc i)) (r.count - 1)
          (λ i l.
            ap (λ k. get_or (set r.entries r.head e) k zero_entry) (at-full r i h)
            ∙ get_or-set_ne r.entries e zero_entry
                (λ q. at_other r (suc i) v h (omega arith) (omega (arith, l)) q))
        ∙ tabulate-drop before r.count held in
      let newest : written (r.count - 1) ≡ e =
        ap (λ k. get_or (set r.entries r.head e) k zero_entry)
          (at-full r (r.count - 1) h
            ∙ ap (at r) {x = suc (r.count - 1)} {y = r.count} (omega (arith, held))
            ∙ at_last r v)
        ∙ get_or-set_self r.entries r.head e zero_entry (omega (arith, v.storage, v.head_in)) in
      let same : ltb r.count r.size ≡ false = ground (arith, h) in
      rw same (tabulate-last written r.count held ∙ cc (older, newest))

  pub forget_oldest-IsValid : (r : RingLog P) → IsValid r → IsValid (forget_oldest zero_entry r)
  unfolding forget_oldest
  forget_oldest-IsValid r v = record {
    storage = v.storage;
    positive = v.positive;
    head_in = v.head_in;
    count_in = v.count_in;
  }

  pub in_order-forget_oldest :
      (r : RingLog P) → in_order zero_entry (forget_oldest zero_entry r) ≡ in_order zero_entry r
  unfolding in_order forget_oldest
  in_order-forget_oldest r = refl

  -- A full ring's head is its oldest entry.
  pub oldest-full :
      (r : RingLog P)
      → IsValid r
      → r.count ≡ r.size
      → in_order zero_entry r ≡ get_or r.entries r.head zero_entry ∷ drop 1 (in_order zero_entry r)
  unfolding in_order
  oldest-full r v h =
      let before = λ (i : ℕ). get_or r.entries (at r i) zero_entry in
      let first : at r 0 ≡ r.head = ground (
        arith,
        v.head_in,
        h,
        mod_once (r.head + r.size - r.count + 0) r.size (omega (arith, v.head_in, h)),
      ) in
      tabulate-first before r.count (omega (arith, v.positive, h))
      ∙ ap (λ k. get_or r.entries k zero_entry ∷ drop 1 (tabulate before r.count)) first

  pub new_ring_log-IsValid : (size : ℤ) → IsValid (new_ring_log zero_entry size)
  unfolding new_ring_log
  new_ring_log-IsValid size = record {
    storage = length-replicate _ zero_entry;
    positive = ground arith;
    head_in = ground arith;
    count_in = omega arith;
  }
