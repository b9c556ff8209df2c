-- ===== src/Seq/Replay.antt =====
-- The replay guard built from the receive window: check, then insert what passed.
use hex_net.Common.{◌≡◌, refl, false, List, [], ◌∷◌, ok, err, ◌⊎◌, inl, inr}
use hex_net.Seq.{Sequence, ReceiveWindow, WindowError, Check, check, insert}
use hex_net.Seq.Window.{History, contains, after, not_contains_of_check}

-- The arrivals that are taken, in order. Each is taken if it passes `check`, and is inserted then.
unfoldable pub admit : ReceiveWindow → List Sequence → List Sequence
admit w [] = []
admit w (s ∷ arrivals) = elim (check w s) [
  | ok _ ↦ s ∷ admit (insert w s) arrivals
  | err _ ↦ admit w arrivals
]

-- No sequence of the list stands in the history, or earlier in the list.
abbrev pub Fresh : History → List Sequence → Type 0
Fresh h [] = Unit {0}
Fresh h (s ∷ taken) = (contains s h ≡ false) × Fresh (s ∷ h) taken

pub Check-cases : (c : Check) → (c ≡ ok tt) ⊎ ((e : WindowError) × (c ≡ err e))
Check-cases (ok tt) = inl refl
Check-cases (err e) = inr (e, refl)

-- Whatever arrives, in whatever order and however often, no sequence is taken twice, nor one
-- that the window has taken before.
pub admit-Fresh : (h : History) (arrivals : List Sequence) → Fresh h (admit (after h) arrivals)
unfolding admit after
admit-Fresh h [] = tt
admit-Fresh h (s ∷ arrivals) = elim (Check-cases (check (after h) s)) [
  | inl e ↦ rw (e, admit) (not_contains_of_check h s e, admit-Fresh (s ∷ h) arrivals)
  | inr (x, e) ↦ rw (e, admit) (admit-Fresh h arrivals)
]
