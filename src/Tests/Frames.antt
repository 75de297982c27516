-- ===== src/Tests/Frames.antt =====
-- Frames for `process_raw_arp_frame` of src/net/frame_parser.c.
use net_det.Prelude.{
  zero, suc, ◌-◌, ◌≤◌, ap, ◌∙◌, ◌⊎◌, length, get_or, [], ℕ, ◌≡◌, refl, true, false, List, ◌∷◌, ◌++◌,
  arith, replicate, ok, fault, out_of_bounds,
}
use net_det.Net.FrameParser.{process_raw_arp_frame}
use net_det.Net.FrameParser.Layout.{IsNormal, process_raw_arp_frame-IsNormal}
use net_det.Net.FrameParser.Safe.{IsReceived, process_raw_arp_frame_safe}
use net_det.Net.FrameParser.Bounds.{process_raw_arp_frame-overflow}

abbrev zeros : List ℕ
zeros = replicate 2048 0

-- An ARP frame behind an 802.1Q tag.
abbrev tagged : List ℕ
tagged =
    replicate 12 0xff ++ 0x81 ∷ 0x00 ∷ 0x00 ∷ 0x64 ∷ 0x08 ∷ 0x06 ∷ 0x00 ∷ 0x01 ∷ replicate 2028 0

abbrev untagged : List ℕ
untagged = replicate 12 0xff ++ 0x08 ∷ 0x06 ∷ replicate 2034 0

process_raw_arp_frame-IsNormal_example :
    (out : List ℕ) × (process_raw_arp_frame tagged zeros 46 ≡ ok (out, 50))
    × IsNormal false true tagged out 50
process_raw_arp_frame-IsNormal_example =
    process_raw_arp_frame-IsNormal false true tagged zeros 46 refl refl ((refl, refl), (refl, refl))
      (omega arith) (omega arith)

process_raw_arp_frame-overflow_example :
    process_raw_arp_frame untagged zeros 2048 ≡ fault out_of_bounds
process_raw_arp_frame-overflow_example =
    process_raw_arp_frame-overflow untagged zeros 2048 refl refl (refl, refl) (omega arith)
      (omega arith)

get_or-replicate : (n k : ℕ) → get_or {A = ℕ} (replicate n 0) k 0 ≡ 0
get_or-replicate zero k = refl
get_or-replicate (suc n) zero = refl
get_or-replicate (suc n) (suc k) = get_or-replicate n k

get_or-++ :
    (xs ys : List ℕ) (k : ℕ) → length xs ≤ k → get_or (xs ++ ys) k 0 ≡ get_or ys (k - length xs) 0
get_or-++ [] ys k h = ap (λ j. get_or ys j 0) (omega arith)
get_or-++ (x ∷ xs) ys zero h = absurd (omega arith)
get_or-++ (x ∷ xs) ys (suc k) h =
    get_or-++ xs ys k (omega arith) ∙ ap (λ j. get_or ys j 0) (omega arith)

-- The addresses, the tag and the EtherType, with zeros behind.
abbrev start : List ℕ
start = replicate 12 0xff ++ 0x81 ∷ 0x00 ∷ 0x00 ∷ 0x64 ∷ 0x08 ∷ 0x06 ∷ []

abbrev short : List ℕ
short = start ++ replicate 2030 0

short-IsReceived : IsReceived short 18
short-IsReceived = record {
  width = refl;
  padded = λ k late. get_or-++ start (replicate 2030 0) k late ∙ get_or-replicate 2030 (k - 18);
}

process_raw_arp_frame_safe_example :
    (out : List ℕ) × (m : ℕ) × (process_raw_arp_frame short zeros 18 ≡ ok (out, m))
    × (length out ≡ 2048)
    × ((m ≡ 0) ⊎ ((22 ≤ m) × (m ≤ 2048)))
process_raw_arp_frame_safe_example =
    process_raw_arp_frame_safe short zeros 18 short-IsReceived refl (omega arith)
