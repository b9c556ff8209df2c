-- ===== src/Tests/Seq.antt =====
-- Examples for hex-net-core/src/seq.rs.
use hex_net.Common.{ℕ, ◌^◌, ◌%◌, ◌<◌, ◌≡◌, refl, some, List, [], ◌∷◌, arith, ◌↔◌}
use hex_net.Seq.{Sequence, check, ack_bits, reconstruct, resolve, to_wire, too_old, duplicate}
use hex_net.Seq.Window.{History, after}
use hex_net.Seq.Replay.{admit, Fresh, admit-Fresh}
use hex_net.Seq.Resolve.{Near, reconstruct_iff}
use hex_net.Seq.Buffer.{SequenceBuffer, new_buffer, insert}

abbrev arrived : History
arrived = 7 ∷ 9 ∷ 5 ∷ []

abbrev arrivals : List Sequence
arrivals = 7 ∷ 10 ∷ 8 ∷ 10 ∷ 200 ∷ 100 ∷ 137 ∷ 137 ∷ []

taken : admit (after arrived) arrivals ≡ 10 ∷ 8 ∷ 200 ∷ 137 ∷ []
unfolding admit after check hex_net.Seq.insert
taken = refl

admit-Fresh_example : Fresh arrived (admit (after arrived) arrivals)
admit-Fresh_example = admit-Fresh arrived arrivals

reconstruct_iff_example :
    (reconstruct 65_540 65_535 ≡ some 65_535)
    ↔ ((65_535 < 2 ^ 64) × (65_535 % 2 ^ 16 ≡ 65_535) × Near 65_540 65_535)
reconstruct_iff_example = reconstruct_iff 65_540 65_535 65_535 (omega arith) (omega arith)

abbrev blank : SequenceBuffer ℕ
blank = new_buffer 4

abbrev buffer : SequenceBuffer ℕ
buffer = (insert 4 blank 3 30).0
