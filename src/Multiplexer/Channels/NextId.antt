-- ===== src/Multiplexer/Channels/NextId.antt =====
-- `getNextId`: the loop ends with an id that is not in use, or with every id in use.
use proxmoxwhatsapp.Prelude.{
  ℕ, zero, suc, ◌+◌, ◌≤◌, ◌<◌, ◌≡◌, refl, List, [], ◌∷◌, length, Bool, true, false, Option, some,
  ◌==◌, ltb, if◌then◌else◌, Result, ok, arith, Bool-cases, inl, inr, ne→==,
}
use proxmoxwhatsapp.Multiplexer.Channels.{
  Channel, Multiplexer, has, max_id, next_id_loop, get_next_id,
}

-- How many of the keys are above `n`.
above : ℕ → List (ℕ × Channel) → ℕ
above n [] = 0
above n ((key, channel) ∷ rest) = if ltb n key then suc (above n rest) else above n rest

above_le : (n : ℕ) (channels : List (ℕ × Channel)) → above n channels ≤ length channels
unfolding above
above_le n [] = omega arith
above_le n ((key, channel) ∷ rest) = grind (arith, above_le n rest)

above_suc : (n : ℕ) (channels : List (ℕ × Channel)) → above (n + 1) channels ≤ above n channels
unfolding above
above_suc n [] = omega arith
above_suc n ((key, channel) ∷ rest) = grind (arith, above_suc n rest)

above-has :
    (n : ℕ) (channels : List (ℕ × Channel))
    → has (n + 1) channels ≡ true
    → above (n + 1) channels < above n channels
unfolding above has
above-has n [] h = ground arith
above-has n ((key, channel) ∷ rest) h = grind (arith, above_suc n rest, above-has n rest)

-- A free id.
pub record IsFree (channels : List (ℕ × Channel)) (found : Option (Result ℕ × ℕ)) : Type 0 where
  pub id : ℕ
  pub eq : found ≡ some (ok id, id)
  pub unused : has id channels ≡ false
  pub positive : 0 < id

found_next :
    (fuel : ℕ) (channels : List (ℕ × Channel)) (hit_top : Bool) (next : ℕ)
    → has (next + 1) channels ≡ false
    → IsFree channels (next_id_loop (suc fuel) channels hit_top next)
unfolding next_id_loop
found_next fuel channels hit_top next e = record {
  id = next + 1;
  eq = rw (next_id_loop, e) refl;
  unused = e;
  positive = omega arith;
}

-- The ids of the second round are counted from 1, so a full round has more ids than channels.
second_round :
    (fuel : ℕ) (channels : List (ℕ × Channel)) (next : ℕ)
    → length channels < max_id
    → above next channels < fuel
    → next + above next channels ≤ length channels
    → IsFree channels (next_id_loop fuel channels true next)
unfolding next_id_loop
second_round zero channels next p h k = ground arith
second_round (suc fuel) channels next p h k = elim (Bool-cases (has (next + 1) channels)) [
  | inl e ↦
      let less = above-has next channels e in
      rw (next_id_loop, e, ne→== (next + 1) max_id (omega arith))
        (second_round fuel channels (next + 1) p (omega arith) (omega arith))
  | inr e ↦ found_next fuel channels true next e
]

first_round :
    (fuel : ℕ) (channels : List (ℕ × Channel)) (next : ℕ)
    → length channels < max_id
    → above next channels + length channels + 1 < fuel
    → IsFree channels (next_id_loop fuel channels false next)
unfolding next_id_loop
first_round zero channels next p h = ground arith
first_round (suc fuel) channels next p h = elim (Bool-cases (has (next + 1) channels)) [
  | inl e ↦
      let less = above-has next channels e in
      elim (Bool-cases (next + 1 == max_id)) [
        | inl t ↦
            rw (next_id_loop, e, t)
              (second_round fuel channels 0 p (omega (arith, above_le 0 channels))
                (omega (arith, above_le 0 channels)))
        | inr t ↦ rw (next_id_loop, e, t) (first_round fuel channels (next + 1) p (omega arith))
      ]
  | inr e ↦ found_next fuel channels false next e
]

-- While fewer than 2^32 channels are open, getNextId ends with an id that no channel has and that
-- is not 0, the id of the multiplexer itself; nextId is then that id, and nothing else changes.
pub get_next_id-fresh :
    (m : Multiplexer)
    → length m.channels < max_id
    → (id : ℕ) × (get_next_id m ≡ some (ok id, record m { next_id = id }))
      × (has id m.channels ≡ false)
      × (0 < id)
unfolding get_next_id
get_next_id-fresh m p =
    let free =
      first_round (2 + (length m.channels + length m.channels)) m.channels m.next_id p
        (omega (arith, above_le m.next_id m.channels)) in
    (free.id, rw (get_next_id, free.eq) refl, free.unused, free.positive)
