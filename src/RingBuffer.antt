-- ===== src/RingBuffer.antt =====
-- src/core/ring_buffer.c: the float history behind the charts. A NULL ring or a NULL backing array is
-- `none`. `capacity` is an `int` that the caller chooses, so it may be negative; `head` and `count`
-- start at 0 and only grow under a guard, so they are natural numbers.
pub mod Laws
mod Examples
use embedded_network_monitor.Prelude.{
  ℕ, ◌+◌, ◌-◌, ◌%◌, Bool, true, false, ◌||◌, Option, none, some, List, [], ◌∷◌, ltb, leb, ◌==◌,
  if◌then◌else◌, get_or, set,
}
use embedded_network_monitor.Prelude.Int.{ℤ, pos, pos_part, is_neg}
use embedded_network_monitor.Prelude.Floating.{Floating}

-- `ring_buffer_t`
pub record Ring (D : Type 0) : Type 0 where
  pub buf : Option (List D)
  pub capacity : ℤ
  pub head : ℕ
  pub count : ℕ

-- `capacity <= 0` is `size == 0`; above 0 the two agree.
abbrev pub size : {D : Type 0} → Ring D → ℕ
size rb = pos_part rb.capacity

module _ {D : Type 0} where
  unfoldable pub init : Option (Ring D) → Option (List D) → ℤ → Option (Ring D)
  init none backing_array capacity = none
  init (some _) backing_array capacity =
      some (record { buf = backing_array; capacity = capacity; head = 0; count = 0 })

  -- the body of `ring_buffer_push` behind its NULL test on `rb`, by the value of `rb->data`
  pub push_data : Option (List D) → Ring D → D → Ring D
  push_data none rb value = rb
  push_data (some xs) rb value = if size rb == 0 then rb else record rb {
    buf = some (set xs rb.head value);
    head = (rb.head + 1) % size rb;
    count = if ltb rb.count (size rb) then rb.count + 1 else rb.count;
  }

  pub push : Option (Ring D) → D → Option (Ring D)
  push none value = none
  push (some rb) value = some (push_data rb.buf rb value)

  pub clear : Option (Ring D) → Option (Ring D)
  clear none = none
  clear (some rb) = some (record rb { head = 0; count = 0 })

  pub full : Option (Ring D) → Bool
  full none = false
  full (some rb) = leb (size rb) rb.count

  pub empty : Option (Ring D) → Bool
  empty none = true
  empty (some rb) = rb.count == 0

module _ {D : Type 0} ⦃f : Floating D⦄ where
  -- the body of `ring_buffer_get` behind its NULL test on `rb`; index 0 is the oldest entry
  pub get_data : Option (List D) → Ring D → ℤ → D
  get_data none rb index = f.zero_d
  get_data (some xs) rb index =
      if is_neg index || leb rb.count (pos_part index)
      then f.zero_d
      else get_or xs (((rb.head + size rb - rb.count) % size rb + pos_part index) % size rb)
          f.zero_d

  pub get : Option (Ring D) → ℤ → D
  get none index = f.zero_d
  get (some rb) index = get_data rb.buf rb index

-- the caller pushes a series of samples
unfoldable pub push_all : {D : Type 0} → Option (Ring D) → List D → Option (Ring D)
unfolding push push_data
push_all rb [] = rb
push_all rb (v ∷ vs) = push_all (push rb v) vs
