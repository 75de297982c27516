-- ===== src/Core/DeviceBuffer.antt =====
-- src/core/device.c: the growing array of devices that the table on the screen shows.
-- `realloc` is an argument: given an array and a number of slots, it returns the new array or null.
use native.Mathlib.Numerals.{add-one}
use net_det.Prelude.{
  ℕ, zero, suc, ◌+◌, ◌-◌, ◌*◌, ◌%◌, ◌^◌, ◌≤◌, ◌<◌, ◌≡◌, refl, ap, Bool, Option, none, some, List,
  [], ◌∷◌, ◌++◌, arith, length, set, length-set, take, Run, ok, fault, out_of_bounds, ◌>>=◌, store,
  store-set, fill, fill_outside, ltb, if◌then◌else◌,
}
use net_det.Core.HashMap.{Status, success, failure}

-- `items` is the allocated array, an entry of which is a pointer that may be null.
pub record DeviceBuffer : Type 0 where
  pub items : List (Option ℕ)
  pub size : ℕ
  pub count : ℕ

abbrev pub Realloc : Type 0
Realloc = List (Option ℕ) → ℕ → Option (List (Option ℕ))

-- `realloc` is asked for `buffer->size` pointers, the old number; the loop writes up to the new one.
unfoldable pub device_buffer_realloc : Realloc → DeviceBuffer → Run (Status × DeviceBuffer)
device_buffer_realloc realloc buffer =
    let new_size = buffer.size * 2 % 2 ^ 32 in
    elim (realloc buffer.items buffer.size) [
      | none ↦ ok (failure, buffer)
      | some tmp ↦ fill none (new_size - buffer.size) buffer.size tmp >>= λ tmp'.
          ok (success, record buffer { items = tmp'; size = new_size })
    ]

-- `(buffer->count + 1) > (buffer->size * 0.8)`, exact on 32-bit numbers, multiplied by 5
unfoldable pub is_full : DeviceBuffer → Bool
is_full buffer = ltb (4 * buffer.size) (5 * ((buffer.count + 1) % 2 ^ 32))

unfoldable pub append_device : DeviceBuffer → Option ℕ → Run (Status × DeviceBuffer)
append_device buffer dev = store buffer.items buffer.count dev >>= λ items.
    ok (success, record buffer { items = items; count = (buffer.count + 1) % 2 ^ 32 })

unfoldable pub device_buffer_store_entry :
    Realloc → DeviceBuffer → Option ℕ → Run (Status × DeviceBuffer)
unfolding is_full device_buffer_realloc append_device
device_buffer_store_entry realloc buffer dev =
    if is_full buffer
    then (device_buffer_realloc realloc buffer >>= λ r. elim r.0 [
      | failure ↦ ok (failure, r.1)
      | success ↦ append_device r.1 dev
    ])
    else append_device buffer dev

-- The devices that the buffer holds, in the order in which they were stored.
abbrev pub contents : DeviceBuffer → List (Option ℕ)
contents buffer = take buffer.count buffer.items

pub record IsValid (buffer : DeviceBuffer) : Type 0 where
  pub allocated : buffer.size ≤ length buffer.items
  pub load : 5 * buffer.count ≤ 4 * buffer.size
  pub fits : buffer.size < 2 ^ 32

pub take-set :
    (xs : List (Option ℕ)) (n : ℕ) (v : Option ℕ)
    → n < length xs
    → take (suc n) (set xs n v) ≡ take n xs ++ v ∷ []
take-set [] n v h = absurd (omega arith)
take-set (x ∷ xs) zero v h = refl
take-set (x ∷ xs) (suc n) v h = ap (◌∷◌ x) (take-set xs n v (omega arith))

-- While the array is less than four fifths full, storing a device writes the next slot.
pub device_buffer_store_entry-set :
    (realloc : Realloc) (buffer : DeviceBuffer) (dev : Option ℕ)
    → IsValid buffer
    → 5 * (buffer.count + 1) ≤ 4 * buffer.size
    → device_buffer_store_entry realloc buffer dev
      ≡ ok (
        success,
        record buffer { items = set buffer.items buffer.count dev; count = buffer.count + 1 },
      )
unfolding device_buffer_store_entry
device_buffer_store_entry-set realloc buffer dev v room =
    let inside : buffer.count < length buffer.items = omega (arith, v.allocated) in
    let small : (buffer.count + 1) % 2 ^ 32 ≡ buffer.count + 1 = omega (arith, v.fits) in
    ground (arith, store-set buffer.items buffer.count dev inside)

-- While the array is less than four fifths full, storing a device meets no fault and succeeds, and
-- the buffer then holds the devices of before and the new one behind them, and is valid.
pub device_buffer_store_entry-contents :
    (realloc : Realloc) (buffer : DeviceBuffer) (dev : Option ℕ)
    → IsValid buffer
    → 5 * (buffer.count + 1) ≤ 4 * buffer.size
    → (buffer' : DeviceBuffer) × (device_buffer_store_entry realloc buffer dev
        ≡ ok (success, buffer'))
      × (contents buffer' ≡ contents buffer ++ dev ∷ [])
      × IsValid buffer'
device_buffer_store_entry-contents realloc buffer dev v room =
    let inside : buffer.count < length buffer.items = omega (arith, v.allocated) in
    (
      record buffer { items = set buffer.items buffer.count dev; count = buffer.count + 1 },
      device_buffer_store_entry-set realloc buffer dev v room,
      rw add-one (take-set buffer.items buffer.count dev inside),
      record { allocated = rw length-set v.allocated; load = room; fits = v.fits },
    )

-- Once the array is four fifths full, storing a device writes past the end of the array, for every
-- `realloc` that finds memory and gives exactly as many slots as it is asked for.
pub device_buffer_store_entry-overflow :
    (realloc : Realloc) (buffer : DeviceBuffer) (dev : Option ℕ) (tmp : List (Option ℕ))
    → 4 * buffer.size < 5 * (buffer.count + 1)
    → buffer.count + 1 < 2 ^ 32
    → 0 < buffer.size
    → buffer.size < 2 ^ 31
    → realloc buffer.items buffer.size ≡ some tmp
    → length tmp ≡ buffer.size
    → device_buffer_store_entry realloc buffer dev ≡ fault out_of_bounds
unfolding device_buffer_store_entry
device_buffer_store_entry-overflow realloc buffer dev tmp full small pos low memory width =
    let past =
      fill_outside none (buffer.size * 2 % 2 ^ 32 - buffer.size) buffer.size tmp (omega arith)
        (omega arith) in
    ground arith

-- Where the array is four fifths full and `realloc` fails, the function returns -1 and changes nothing.
pub device_buffer_store_entry-failure :
    (realloc : Realloc) (buffer : DeviceBuffer) (dev : Option ℕ)
    → 4 * buffer.size < 5 * (buffer.count + 1)
    → buffer.count + 1 < 2 ^ 32
    → realloc buffer.items buffer.size ≡ none
    → device_buffer_store_entry realloc buffer dev ≡ ok (failure, buffer)
unfolding device_buffer_store_entry
device_buffer_store_entry-failure realloc buffer dev full small refused = ground arith
