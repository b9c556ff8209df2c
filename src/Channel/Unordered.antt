-- ===== src/Channel/Unordered.antt =====
-- `ReceiverState::accept_unordered` of hex-net-core/src/channel.rs against the receive window of seq.rs.
use hex_net.Common.{
  ℕ, suc, ◌+◌, ◌-◌, ◌%◌, ◌^◌, ◌≤◌, ◌<◌, ◌≡◌, refl, ap, sym, ◌∙◌, subst, Bool, true, false, not,
  Option, none, some, List, [], ◌∷◌, arith, bit_and, bit_or, ltb, leb, ◌==◌, if◌then◌else◌, ok, err,
  Bool-cases, inl, inr, ◌⊎◌,
}
use hex_net.Common.Int.{ℤ, pos, negsuc}
use hex_net.Seq.{
  Sequence, ReceiveWindow, check, insert, empty, shl64, WindowError, duplicate, too_old,
}
use hex_net.Seq.Window.{after}
use hex_net.Seq.Replay.{admit, Fresh, admit-Fresh}
use hex_net.Channel.{
  ReceiverState, distance_from, accept_behind, accept_at, accept_unordered, new_receiver,
}
use native.Mathlib.Decide.{ℕ_discrete}

-- Counters less than half the range of ids apart.
abbrev pub IsNear : ℕ → ℕ → Type 0
IsNear n m = (n < m + 2 ^ 31) × (m < n + 2 ^ 31)

-- The distance of two ids is that of the counters that they are cut from.
pub distance_ahead :
    (n m : ℕ) → IsNear n m → m < n → distance_from (n % 2 ^ 32) (m % 2 ^ 32) ≡ pos (n - m)
unfolding distance_from
distance_ahead n m near lt = ground arith

pub distance_behind :
    (n m : ℕ) → IsNear n m → n < m → distance_from (n % 2 ^ 32) (m % 2 ^ 32) ≡ negsuc (m - n - 1)
unfolding distance_from
distance_behind n m near lt = ground arith

pub distance_same : (n : ℕ) → distance_from (n % 2 ^ 32) (n % 2 ^ 32) ≡ pos 0
unfolding distance_from
distance_same n = ground arith

-- The receive window that the state stands for, with the window's counters cut to ids.
Mirrors : ReceiveWindow → ReceiverState → Type 0
Mirrors w s =
    ((w.newest ≡ none) × (s.seen_started ≡ false))
    ⊎ ((n : Sequence) × (w.newest ≡ some n)
        × (s.seen_started ≡ true)
        × (s.seen_newest ≡ n % 2 ^ 32)
        × (s.seen_mask ≡ w.mask))

abbrev pub NearNewest : Option Sequence → ℕ → Type 0
NearNewest none n = Unit {0}
NearNewest (some newest) n = IsNear n newest

-- One arrival: what the window admits is accepted, and the state goes on mirroring the window.
Agrees : ReceiveWindow → ReceiverState → ℕ → Type 0
Agrees w s n =
    ((s' : ReceiverState) × (check w n ≡ ok tt)
      × (accept_unordered s (n % 2 ^ 32) ≡ (s', true))
      × Mirrors (insert w n) s')
    ⊎ ((e : WindowError) × (check w n ≡ err e) × (accept_unordered s (n % 2 ^ 32) ≡ (s, false)))

behind-Agrees :
    (newest mask n : ℕ) (s : ReceiverState)
    → n ≤ newest
    → s.seen_started ≡ true
    → s.seen_newest ≡ newest % 2 ^ 32
    → s.seen_mask ≡ mask
    → accept_unordered s (n % 2 ^ 32) ≡ accept_behind s (newest - n)
    → Agrees (record { newest = some newest; mask = mask }) s n
unfolding Agrees Mirrors check insert accept_behind
behind-Agrees newest mask n s le started id same go =
    let not_newer : ltb newest n ≡ false = ground arith in
    let not_newer' : leb n newest ≡ true = ground arith in
    elim (Bool-cases (leb 64 (newest - n))) [
      | inl old ↦ inr (too_old, rw (not_newer, old) refl, go ∙ rw old refl)
      | inr recent ↦
          let recent' : ltb (newest - n) 64 ≡ true = ground arith in
          elim (Bool-cases (bit_and mask (2 ^ (newest - n)) == 0)) [
            | inl unseen ↦ inl (
              record s { seen_mask = bit_or s.seen_mask (2 ^ (newest - n)) },
              rw (not_newer, recent, unseen) refl,
              go ∙ rw (recent, same, unseen) refl,
              rw (not_newer', recent', same) (inr (newest, refl, started, id, refl)),
            )
            | inr seen ↦
                inr
                  (duplicate, rw (not_newer, recent, seen) refl, go ∙ rw (recent, same, seen) refl)
          ]
    ]

ahead-Agrees :
    (newest mask n k : ℕ) (s : ReceiverState)
    → newest < n
    → n - newest ≡ suc k
    → s.seen_started ≡ true
    → s.seen_newest ≡ newest % 2 ^ 32
    → s.seen_mask ≡ mask
    → accept_unordered s (n % 2 ^ 32) ≡ accept_at s (n % 2 ^ 32) (pos (suc k))
    → Agrees (record { newest = some newest; mask = mask }) s n
unfolding Agrees Mirrors check insert accept_at
ahead-Agrees newest mask n k s lt shift started id same go =
    let newer : ltb newest n ≡ true = ground arith in
    let newer' : leb n newest ≡ false = ground arith in
    inl (
      record s {
        seen_mask = bit_or (if leb 64 (suc k) then 0 else shl64 s.seen_mask (suc k)) 1;
        seen_newest = n % 2 ^ 32;
      },
      rw newer refl,
      go,
      rw (newer', shift, same) (inr (n, refl, started, refl, refl)),
    )

accepted_by :
    (s : ReceiverState) (n newest : ℕ) (d : ℤ)
    → s.seen_started ≡ true
    → s.seen_newest ≡ newest % 2 ^ 32
    → distance_from (n % 2 ^ 32) (newest % 2 ^ 32) ≡ d
    → accept_unordered s (n % 2 ^ 32) ≡ accept_at s (n % 2 ^ 32) d
unfolding accept_unordered
accepted_by s n newest d started id e =
    let id' = n % 2 ^ 32 in
    let there = accept_at s id' (distance_from id' s.seen_newest) in
    subst
      (λ b.
        (if not b
          then (record s { seen_started = true; seen_newest = id'; seen_mask = 1 }, true)
          else there)
        ≡ there)
      (sym started) refl
    ∙ ap (λ m. accept_at s id' (distance_from id' m)) id
    ∙ ap (accept_at s id') e

started-Agrees :
    (newest mask n : ℕ) (s : ReceiverState)
    → IsNear n newest
    → s.seen_started ≡ true
    → s.seen_newest ≡ newest % 2 ^ 32
    → s.seen_mask ≡ mask
    → Agrees (record { newest = some newest; mask = mask }) s n
unfolding accept_at
started-Agrees newest mask n s near started id same = elim (Bool-cases (ltb newest n)) [
  | inl newer ↦
      let lt : newest < n = ground arith in
      let k : n - newest ≡ suc (n - newest - 1) = omega arith in
      ahead-Agrees newest mask n (n - newest - 1) s lt k started id same (
        accepted_by s n newest (pos (suc (n - newest - 1))) started id
          (distance_ahead n newest near lt ∙ ap pos k))
  | inr not_newer ↦
      let le : n ≤ newest = ground arith in
      behind-Agrees newest mask n s le started id same (elim (ℕ_discrete n newest) [
        | yes here ↦
            accepted_by s n newest (pos 0) started id
              (ap (λ m. distance_from (n % 2 ^ 32) (m % 2 ^ 32)) (sym here) ∙ distance_same n)
            ∙ ap (accept_behind s) (omega arith)
        | no apart ↦
            let lt : n < newest = omega arith in
            accepted_by s n newest (negsuc (newest - n - 1)) started id
              (distance_behind n newest near lt)
            ∙ ap (accept_behind s) (omega arith)
      ])
]

accept-Agrees :
    (w : ReceiveWindow) (s : ReceiverState) (n : ℕ)
    → Mirrors w s
    → NearNewest w.newest n
    → Agrees w s n
unfolding Mirrors Agrees accept_unordered accept_at check insert
accept-Agrees w s n (inl (nothing, unstarted)) near = inl (
  record s { seen_started = true; seen_newest = n % 2 ^ 32; seen_mask = 1 },
  rw nothing refl,
  rw unstarted refl,
  rw nothing (inr (n, refl, refl, refl, refl)),
)
accept-Agrees w s n (inr (newest, at, started, id, same)) near =
    subst (λ o. Agrees (record { newest = o; mask = w.mask }) s n) (sym at)
      (started-Agrees newest w.mask n s (subst (λ o. NearNewest o n) at near) started id same)

abbrev keep : Bool → ℕ → List ℕ → List ℕ
keep true n rest = n ∷ rest
keep false n rest = rest

-- The counters whose ids are accepted, in the order of arrival.
unfoldable pub accepted : ReceiverState → List ℕ → List ℕ
accepted s [] = []
accepted s (n ∷ arrivals) =
    let (s', took) = accept_unordered s (n % 2 ^ 32) in keep took n (accepted s' arrivals)

-- No arrival is half the range of ids or more from the newest one before it.
abbrev pub moved : ReceiveWindow → ℕ → ReceiveWindow
moved w n = elim (check w n) [ ok _ ↦ insert w n | err _ ↦ w ]

abbrev pub StaysNear : ReceiveWindow → List ℕ → Type 0
StaysNear w [] = Unit {0}
StaysNear w (n ∷ arrivals) = NearNewest w.newest n × StaysNear (moved w n) arrivals

accepted-admit_from :
    (w : ReceiveWindow) (s : ReceiverState) (arrivals : List ℕ)
    → Mirrors w s
    → StaysNear w arrivals
    → accepted s arrivals ≡ admit w arrivals
unfolding accepted admit Agrees
accepted-admit_from w s [] m near = refl
accepted-admit_from w s (n ∷ arrivals) m (near, more) = elim (accept-Agrees w s n m near) [
  | inl (s', passed, accepts, m') ↦
      let more' : StaysNear (insert w n) arrivals =
        subst (λ v. StaysNear v arrivals) (rw (passed, moved) refl) more in
      rw (accepts, passed, admit)
        (ap (◌∷◌ n) (accepted-admit_from (insert w n) s' arrivals m' more'))
  | inr (e, stopped, refuses) ↦
      let more' : StaysNear w arrivals =
        subst (λ v. StaysNear v arrivals) (rw (stopped, moved) refl) more in
      rw (refuses, stopped, admit) (accepted-admit_from w s arrivals m more')
]

-- The unordered channel's duplicate set is the receive window of the packets, on counters cut to
-- ids of 32 bits: while no arrival is 2^31 or more from the newest accepted before it, a new receiver
-- accepts exactly the arrivals that an empty window admits, in the same order.
pub accepted-admit :
    (arrivals : List ℕ)
    → StaysNear empty arrivals
    → accepted new_receiver arrivals ≡ admit empty arrivals
unfolding Mirrors new_receiver
accepted-admit arrivals near =
    accepted-admit_from empty new_receiver arrivals (inl (refl, refl)) near

-- Under the same condition, an unordered channel delivers no message twice, however often and in
-- whatever order its copies arrive.
accepted-Fresh :
    (arrivals : List ℕ) → StaysNear empty arrivals → Fresh [] (accepted new_receiver arrivals)
unfolding after
accepted-Fresh arrivals near =
    subst (Fresh []) (sym (accepted-admit arrivals near)) (admit-Fresh [] arrivals)
