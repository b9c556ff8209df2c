-- ===== src/Tests/Slab.antt =====
-- Examples for hex-net-core/src/slab.rs.
use hex_net.Common.{
  ℕ, zero, suc, ◌%◌, ◌^◌, ◌<◌, ◌≡◌, ◌≢◌, ◌⊎◌, refl, some, none, List, [], ◌∷◌, arith, ok, err,
  length, get_elem?,
}
use hex_net.Slab.{Slab, Slot, Handle, none_index, insert, remove, get}
use hex_net.Slab.Valid.{IsValid, Chain}
use hex_net.Slab.Insert.{insert_lem}
use hex_net.Slab.Remove.{remove_lem}

-- One slot is occupied, one is free after its first life, and a third may still be made.
abbrev slab : Slab ℕ
slab = record {
  slots =
      record { generation = 3; index_or_free = 0 }
      ∷ record { generation = 2; index_or_free = 0xFFFF_FFFF }
      ∷ [];
  items = 70 ∷ [];
  owners = 0 ∷ [];
  free_head = 1;
  capacity = 3;
}

slab_words : (i : ℕ) (slot : Slot) → get_elem? slab.slots i ≡ some slot → slot.generation < 2 ^ 32
slab_words zero slot e = ground arith
slab_words (suc zero) slot e = ground arith
slab_words (suc (suc i)) slot e = absurd cc

slab_owned :
    (d i : ℕ)
    → get_elem? slab.owners d ≡ some i
    → (slot : Slot) × (get_elem? slab.slots i ≡ some slot)
      × (slot.index_or_free ≡ d)
      × (slot.generation % 2 ≡ 1)
slab_owned zero i e =
    let here : i ≡ 0 = ground arith in
    rw here (record { generation = 3; index_or_free = 0 }, refl, refl, refl)
slab_owned (suc d) i e = absurd cc

slab_occupied :
    (i : ℕ) (slot : Slot)
    → get_elem? slab.slots i ≡ some slot
    → slot.generation % 2 ≡ 1
    → get_elem? slab.owners slot.index_or_free ≡ some i
slab_occupied zero slot e odd = let d : slot.index_or_free ≡ 0 = ground arith in rw d refl
slab_occupied (suc zero) slot e odd =
    let g : slot.generation ≡ 2 = ground arith in absurd (omega arith)
slab_occupied (suc (suc i)) slot e odd = absurd cc

slab-IsValid : IsValid slab (1 ∷ [])
unfolding Chain none_index
slab-IsValid = record {
  owners_len = refl;
  slots_len = omega arith;
  capacity_word = omega arith;
  words = slab_words;
  owned = slab_owned;
  occupied = slab_occupied;
  chain = (refl, record { generation = 2; index_or_free = 0xFFFF_FFFF }, refl, refl, refl);
  distinct = (tt, tt);
  count = omega arith;
}

insert_lem_example :
    ((◌≡◌ {A = ℕ} 2 3) × (◌≡◌ {A = List ℕ} (1 ∷ []) []) × (insert slab 80 ≡ some (slab, err 80)))
    ⊎ ((s' : Slab ℕ) × (h : Handle) × (free' : List ℕ) × (insert slab 80 ≡ some (s', ok h))
        × IsValid s' free'
        × (h.generation % 2 ≡ 1)
        × (get slab h ≡ some none)
        × (get s' h ≡ some (some 80))
        × ((k : Handle) → k.generation % 2 ≡ 1 → k ≢ h → get s' k ≡ get slab k)
        × (length s'.items ≡ suc 1))
insert_lem_example = insert_lem slab (1 ∷ []) 80 slab-IsValid

abbrev handle : Handle
handle = record { index = 0; generation = 3 }

remove_lem_example :
    ((get slab handle ≡ some none) × (remove slab handle ≡ some (slab, none)))
    ⊎ ((x : ℕ) × (s' : Slab ℕ) × (get slab handle ≡ some (some x))
        × (remove slab handle ≡ some (s', some x))
        × ((free' : List ℕ) × IsValid s' free')
        × (get s' handle ≡ some none)
        × ((k : Handle) → k.generation % 2 ≡ 1 → k ≢ handle → get s' k ≡ get slab k)
        × (suc (length s'.items) ≡ 1))
remove_lem_example = remove_lem slab (1 ∷ []) handle slab-IsValid refl
