-- ===== src/Protocol/Sizes.antt =====
-- The sizes that urg_node/include/uam/shape_shifter_packet.h and urg_node/include/uam/uam_visitors.h
-- assert at compile time, and what the computation of the buffer's size gives on any list.
use urg_node.Prelude.{
  ℕ, ◌+◌, ◌≤◌, ◌≡◌, ◌⊎◌, inl, inr, refl, arith, List, [], ◌∷◌, leb, if◌then◌else◌, All, Bool, true,
  false,
}
use urg_node.Protocol.Layout.{offset_of}
use urg_node.Protocol.Header.{header_size}
use urg_node.Protocol.Sensing.{sensing_data_layout}
use urg_node.Protocol.Replies.{
  ar00_reply_size, ar01_reply_size, xr00_reply_size, distance_start, intensity_start,
}
use urg_node.Protocol.Packet.{get_max_size, buffer_size}

get_max_size-le : (first : ℕ) (rest : List ℕ) → first ≤ get_max_size first rest
unfolding get_max_size
get_max_size-le first [] = omega arith
get_max_size-le first (second ∷ rest) =
    ground (arith, get_max_size-le (if leb second first then first else second) rest)

get_max_size-ge_rest : (first : ℕ) (rest : List ℕ) → All (λ s. s ≤ get_max_size first rest) rest
unfolding get_max_size
get_max_size-ge_rest first [] = tt
get_max_size-ge_rest first (second ∷ rest) =
    let next : ℕ = if leb second first then first else second in
    (ground (arith, get_max_size-le next rest), get_max_size-ge_rest next rest)

abbrev pub IsOneOf : ℕ → List ℕ → Type 0
IsOneOf a [] = ⊥
IsOneOf a (b ∷ bs) = (a ≡ b) ⊎ IsOneOf a bs

widen :
    (m first second : ℕ) (rest : List ℕ) (b : Bool)
    → IsOneOf m ((if b then first else second) ∷ rest)
    → IsOneOf m (first ∷ second ∷ rest)
widen m first second rest true (inl e) = inl e
widen m first second rest true (inr p) = inr (inr p)
widen m first second rest false p = inr p

get_max_size-IsOneOf :
    (first : ℕ) (rest : List ℕ) → IsOneOf (get_max_size first rest) (first ∷ rest)
unfolding get_max_size
get_max_size-IsOneOf first [] = inl refl
get_max_size-IsOneOf first (second ∷ rest) =
    let next : ℕ = if leb second first then first else second in
    widen _ first second rest (leb second first) (get_max_size-IsOneOf next rest)

-- The size that `getMaxSize` computes for the packet's union is at least the size of every member,
-- and is the size of one of them.
pub get_max_size_lem :
    (first : ℕ) (rest : List ℕ)
    → All (λ s. s ≤ get_max_size first rest) (first ∷ rest)
      × IsOneOf (get_max_size first rest) (first ∷ rest)
get_max_size_lem first rest =
    ((get_max_size-le first rest, get_max_size-ge_rest first rest), get_max_size-IsOneOf first rest)

pub buffer_size_lem : buffer_size ≡ 8703
unfolding buffer_size get_max_size
buffer_size_lem = refl

ar01_is_largest : ar01_reply_size ≡ 8703
ar01_is_largest = refl

sensing_data_at_11 : ◌≡◌ {A = ℕ} header_size 11
sensing_data_at_11 = refl

ar00_size : ◌≡◌ {A = ℕ} ar00_reply_size 4379
ar00_size = refl

area_number_at_12 : ◌≡◌ {A = ℕ} (header_size + offset_of sensing_data_layout 1) 12
area_number_at_12 = refl

error_state_at_14 : ◌≡◌ {A = ℕ} (header_size + offset_of sensing_data_layout 2) 14
error_state_at_14 = refl

error_code_at_15 : ◌≡◌ {A = ℕ} (header_size + offset_of sensing_data_layout 3) 15
error_code_at_15 = refl

lockout_state_at_17 : ◌≡◌ {A = ℕ} (header_size + offset_of sensing_data_layout 4) 17
lockout_state_at_17 = refl

ranges_at_50 : ◌≡◌ {A = ℕ} distance_start 50
ranges_at_50 = refl

intensities_at_4374 : ◌≡◌ {A = ℕ} intensity_start (50 + 4324)
intensities_at_4374 = refl

xr00_size : ◌≡◌ {A = ℕ} xr00_reply_size 106
xr00_size = refl
