-- ===== src/DriverHelper/Remote.antt =====
-- Which device `get_remote_device_configuration` finds, and for which numbers it stays in its tables.
use native.Mathlib.Decide.{ℕ_discrete}
use taste_runtime_common.Common.{ℕ, zero, suc, ◌+◌, ◌≤◌, ◌<◌, ◌≡◌, ◌≢◌, refl, arith}
use taste_runtime_common.Common.{◌⊎◌, inl, inr, true, false, Bool-cases, ltb, ◌==◌, ==_iff}
use taste_runtime_common.Common.{not_ltb→le, List, [], ◌∷◌, length}
use taste_runtime_common.Memory.{Result, ok, faulted, read, Returns}
use taste_runtime_common.DriverHelper.{is_remote, find_remote, get_remote_device_configuration}

-- A table with `n` entries.
pub record IsTable (xs : List ℕ) (n : ℕ) (f : ℕ → ℕ) : Type 0 where
  pub length_is : length xs ≡ n
  pub entry : (i : ℕ) → i < n → read xs i ≡ ok (f i)

-- Another device on the bus of `device`.
abbrev pub IsOther : (ℕ → ℕ) → ℕ → ℕ → Type 0
IsOther bus device i = (i ≢ device) × (bus i ≡ bus device)

-- No device from `from` on and below `n` is one.
abbrev pub NoOther : (ℕ → ℕ) → ℕ → ℕ → Type 0
NoOther bus device n = (i : ℕ) → i < n → IsOther bus device i → ⊥

-- The first of the others.
pub record IsFirst (bus : ℕ → ℕ) (device n i : ℕ) : Type 0 where
  pub inside : i < n
  pub other : IsOther bus device i
  pub first : NoOther bus device i

-- Its configuration, or NULL where the device is alone on its bus.
abbrev pub Remote : (ℕ → ℕ) → (ℕ → ℕ) → ℕ → ℕ → ℕ → Type 0
Remote bus configuration device n r =
    ((i : ℕ) × IsFirst bus device n i × (r ≡ configuration i)) ⊎ (NoOther bus device n × (r ≡ 0))

-- What a call does for a device inside the tables, one behind their end, and beyond that.
abbrev pub ByDevice {ℓ} : (ℕ → Type ℓ) → ℕ → ℕ → Result ℕ → Type ℓ
ByDevice P n device r =
    ((device < n) × Returns P r) ⊎ ((device ≡ n) × (r ≡ faulted)) ⊎ ((n < device) × (r ≡ ok 0))

read_outside : (xs : List ℕ) (i : ℕ) → length xs ≤ i → read xs i ≡ faulted
unfolding read
read_outside [] i h = refl
read_outside (x ∷ xs) zero h = absurd (omega arith)
read_outside (x ∷ xs) (suc i) h = read_outside xs i (omega arith)

NoOther-snoc :
    (bus : ℕ → ℕ) (device n : ℕ)
    → NoOther bus device n
    → (IsOther bus device n → ⊥)
    → NoOther bus device (n + 1)
NoOther-snoc bus device n none here i below = elim (ℕ_discrete i n) [
  | yes e ↦ rw e here
  | no apart ↦ none i (omega arith)
]

module _ (n : ℕ) (configurations buses : List ℕ) (configuration bus : ℕ → ℕ)
    (configurations_are : IsTable configurations n configuration)
    (buses_are : IsTable buses n bus) where
  is_remote_lem :
      (device index : ℕ)
      → index < n
      → ((is_remote n buses device (bus device) index ≡ ok true) × IsOther bus device index)
        ⊎ ((is_remote n buses device (bus device) index ≡ ok false)
            × (IsOther bus device index → ⊥))
  unfolding is_remote
  is_remote_lem device index below = elim (Bool-cases (index == device)) [
    | inl itself ↦ rw itself (inr (refl, λ o. o.0 ((==_iff _ _).0 itself)))
    | inr another ↦
        rw (another, buses_are.entry index below)
          (elim (Bool-cases (bus index == bus device)) [
            | inl same ↦ rw same (inl (refl, ((λ e. ground arith), (==_iff _ _).0 same)))
            | inr apart ↦ rw apart (inr (refl, λ o. ground arith))
          ])
  ]

  find_remote-Remote :
      (device index left : ℕ)
      → index + left ≡ n
      → NoOther bus device index
      → Returns
          (Remote bus configuration device n)
          (find_remote n configurations buses device (bus device) index left)
  unfolding find_remote
  find_remote-Remote device index zero to none =
      let e : n ≡ index = omega arith in rw e (inr (none, refl))
  find_remote-Remote device index (suc left) to none =
      elim (is_remote_lem device index (omega arith)) [
        | inl (found, other) ↦
            rw (found, configurations_are.entry index (omega arith))
              (inl (index, record { inside = omega arith; other = other; first = none }, refl))
        | inr (found, alone) ↦ rw found (
            find_remote-Remote device (index + 1) left (omega arith)
              (NoOther-snoc bus device index none alone))
      ]

  -- The tables have SYSTEM_DEVICE_NUMBER entries. For a device inside them,
  -- get_remote_device_configuration returns, without an access out of bounds, the configuration of the
  -- first other device on the same bus, or NULL where there is none; for the number
  -- SYSTEM_DEVICE_NUMBER itself it reads behind the end of a table; for a larger one it returns NULL.
  pub get_remote_device_configuration-ByDevice :
      (device : ℕ)
      → ByDevice
          (Remote bus configuration device n)
          n
          device
          (get_remote_device_configuration n configurations buses device)
  unfolding get_remote_device_configuration
  get_remote_device_configuration-ByDevice device = elim (Bool-cases (ltb n device)) [
    | inl beyond ↦ rw beyond (inr (inr (ground arith, refl)))
    | inr inside ↦ rw inside (elim (ℕ_discrete device n) [
      | yes e ↦
          rw (read_outside buses device (omega (arith, buses_are.length_is))) (inr (inl (e, refl)))
      | no apart ↦
          let below : device < n = omega (arith, not_ltb→le _ _ inside) in
          rw (buses_are.entry device below)
            (inl (below, find_remote-Remote device 0 n (omega arith) (λ i b. absurd (omega arith))))
    ])
  ]
