-- ===== src/RoutingHelper/Search.antt =====
-- What the search of the port table for the only interface behind a bus finds.
use taste_runtime_common.Common.{
  ℕ, zero, suc, ◌+◌, ◌<◌, ◌≡◌, ◌≢◌, refl, ap, ◌∙◌, sym, arith, ◌⊎◌, inl, inr,
}
use taste_runtime_common.Common.{Bool, true, false, Bool-cases, ◌==◌, ==_iff, ne→==, List}
use native.Mathlib.Decide.{ℕ_discrete}
use taste_runtime_common.Memory.{ok, read, Returns}
use taste_runtime_common.RoutingHelper.{
  PartitionBusPair, leads_to, find_loop, find_unique_destination,
}

-- The entries of the table, for the interfaces below `n`.
abbrev pub Entries : List PartitionBusPair → ℕ → (ℕ → PartitionBusPair) → Type 0
Entries map n entry = (i : ℕ) → i < n → read map i ≡ ok (entry i)

-- `r` is the only interface below `n` that leads out.
pub record IsOnly (leads : ℕ → Bool) (n r : ℕ) : Type 0 where
  pub inside : r < n
  pub does : leads r ≡ true
  pub alone : (i : ℕ) → i < n → leads i ≡ true → i ≡ r

-- Two interfaces below `n` lead out.
pub record AreSeveral (leads : ℕ → Bool) (n : ℕ) : Type 0 where
  pub one : ℕ
  pub other : ℕ
  pub differ : one < other
  pub inside : other < n
  pub one_does : leads one ≡ true
  pub other_does : leads other ≡ true

-- No interface below `n` leads out.
abbrev pub AreNone : (ℕ → Bool) → ℕ → Type 0
AreNone leads n = (i : ℕ) → i < n → leads i ≡ false

-- The answer: the only interface, or INTERFACE_INVALID_ID where there is none or more than one.
abbrev pub Answer : ℕ → (ℕ → Bool) → ℕ → ℕ → Type 0
Answer invalid leads n r = IsOnly leads n r ⊎ (r ≡ invalid) × (AreNone leads n ⊎ AreSeveral leads n)

-- What the variables of the loop say of the interfaces below `index`.
abbrev Seen : ℕ → (ℕ → Bool) → ℕ → ℕ → Type 0
Seen invalid leads index found =
    ((found ≡ invalid) × AreNone leads index) ⊎ ((found ≢ invalid) × IsOnly leads index found)

pub none_snoc :
    (leads : ℕ → Bool) (index : ℕ)
    → AreNone leads index
    → leads index ≡ false
    → AreNone leads (index + 1)
none_snoc leads index none not_here i below = elim (ℕ_discrete i index) [
  | yes e ↦ ap leads e ∙ not_here
  | no apart ↦ none i (omega arith)
]

IsOnly-snoc :
    (leads : ℕ → Bool) (index found : ℕ)
    → IsOnly leads index found
    → leads index ≡ false
    → IsOnly leads (index + 1) found
IsOnly-snoc leads index found only not_here = record {
  inside = omega (arith, only.inside);
  does = only.does;
  alone = λ i below does. elim (ℕ_discrete i index) [
    | yes e ↦ (let clash : true ≡ false = sym does ∙ ap leads e ∙ not_here in absurd (ground arith))
    | no apart ↦ only.alone i (omega arith) does
  ];
}

IsOnly-here :
    (leads : ℕ → Bool) (index : ℕ)
    → AreNone leads index
    → leads index ≡ true
    → IsOnly leads (index + 1) index
IsOnly-here leads index none here = record {
  inside = omega arith;
  does = here;
  alone = λ i below does. elim (ℕ_discrete i index) [
    | yes e ↦ e
    | no apart ↦
        (let clash : true ≡ false = sym does ∙ none i (omega arith) in absurd (ground arith))
  ];
}

module _ (partition_name invalid : ℕ) where
  find_loop-Answer :
      (map : List PartitionBusPair) (entry : ℕ → PartitionBusPair) (n bus found index left : ℕ)
      → Entries map n entry
      → leads_to partition_name bus (entry invalid) ≡ false
      → index + left ≡ n
      → Seen invalid (λ i. leads_to partition_name bus (entry i)) index found
      → Returns
          (Answer invalid (λ i. leads_to partition_name bus (entry i)) n)
          (find_loop partition_name invalid map bus found index left)
  unfolding find_loop
  find_loop-Answer map entry n bus found index zero entries unused to seen =
      let e : n ≡ index = omega arith in
      rw e (elim seen [ inl (same, none) ↦ inr (same, inl none) | inr (ne, only) ↦ inl only ])
  find_loop-Answer map entry n bus found index (suc left) entries unused to seen =
      let leads : ℕ → Bool = λ i. leads_to partition_name bus (entry i) in
      rw (entries index (omega arith)) (elim (Bool-cases (leads index)) [
        | inr not_here ↦ rw not_here (
            find_loop-Answer map entry n bus found (index + 1) left entries unused (omega arith)
              (elim seen [
                | inl (e, none) ↦ inl (e, none_snoc leads index none not_here)
                | inr (ne, only) ↦ inr (ne, IsOnly-snoc leads index found only not_here)
              ]))
        | inl here ↦ rw here (elim seen [
          | inl (e, none) ↦
              (let same : (found == invalid) ≡ true = (==_iff _ _).1 e in
                let ne : index ≢ invalid = λ e'.
                  let clash : true ≡ false = sym here ∙ ap leads e' ∙ unused in ground arith in
                rw same (
                  find_loop-Answer map entry n bus index (index + 1) left entries unused
                    (omega arith) (inr (ne, IsOnly-here leads index none here))))
          | inr (ne, only) ↦
              (let differ : (found == invalid) ≡ false = ne→== _ _ ne in
                rw differ (
                  inr (
                    refl,
                    inr (record {
                      one = found;
                      other = index;
                      differ = only.inside;
                      inside = omega arith;
                      one_does = only.does;
                      other_does = here;
                    }),
                  )))
        ])
      ])

  -- The table has an entry for each interface, and the one of INTERFACE_INVALID_ID does not lead out:
  -- find_unique_destination returns, without an access out of bounds, the only interface that leads to
  -- another partition by the bus, or INTERFACE_INVALID_ID where there is none or more than one.
  pub find_unique_destination-Answer :
      (map : List PartitionBusPair) (entry : ℕ → PartitionBusPair) (n bus : ℕ)
      → Entries map n entry
      → leads_to partition_name bus (entry invalid) ≡ false
      → Returns
          (Answer invalid (λ i. leads_to partition_name bus (entry i)) n)
          (find_unique_destination partition_name invalid n map bus)
  unfolding find_unique_destination
  find_unique_destination-Answer map entry n bus entries unused =
      find_loop-Answer map entry n bus invalid 0 n entries unused (omega arith)
        (inl (refl, λ i below. absurd (omega arith)))
