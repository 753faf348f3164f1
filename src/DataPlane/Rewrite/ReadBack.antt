-- ===== src/DataPlane/Rewrite/ReadBack.antt =====
-- What is read from a frame after a write, and after a swap of two fields.
use e_shield.Base.{
  ℕ, zero, suc, ◌+◌, ◌-◌, ◌*◌, ◌≤◌, ◌<◌, ◌≡◌, refl, ◌∙◌, List, [], ◌∷◌, ◌++◌, length, drop, take,
  get_or, length-append, length-take, ltb, if◌then◌else◌, arith, swap32, u32_mod, ◌/◌, ◌%◌,
}
use native.Mathlib.Nat.{zero-add, suc-add}
use e_shield.DataPlane.Parser.Fields.{byte_at}
use e_shield.DataPlane.Rewrite.{write, slice, swap_fields}

get_or-append :
    (xs ys : List ℕ) (i d : ℕ)
    → get_or (xs ++ ys) i d
      ≡ (if ltb i (length xs) then get_or xs i d else get_or ys (i - length xs) d)
get_or-append [] ys i d = ground arith
get_or-append (x ∷ xs) ys zero d = ground arith
get_or-append (x ∷ xs) ys (suc i) d = ground (arith, get_or-append xs ys i d)

get_or-take : (n : ℕ) (xs : List ℕ) (i d : ℕ) → i < n → get_or (take n xs) i d ≡ get_or xs i d
get_or-take zero xs i d h = absurd (omega arith)
get_or-take (suc n) [] i d h = refl
get_or-take (suc n) (x ∷ xs) zero d h = refl
get_or-take (suc n) (x ∷ xs) (suc i) d h = get_or-take n xs i d (omega arith)

get_or-drop : (n : ℕ) (xs : List ℕ) (i d : ℕ) → get_or (drop n xs) i d ≡ get_or xs (n + i) d
get_or-drop zero xs i d = rw zero-add refl
get_or-drop (suc n) [] i d = refl
get_or-drop (suc n) (x ∷ xs) i d = rw suc-add (get_or-drop n xs i d)

length-drop : (n : ℕ) (xs : List ℕ) → length (drop n xs) ≡ length xs - n
length-drop zero xs = omega arith
length-drop (suc n) [] = omega arith
length-drop (suc n) (x ∷ xs) = omega (arith, length-drop n xs)

-- Reading a patched frame: inside the patch its bytes, outside those of the frame.
abbrev pub patched : (ℕ → ℕ) → ℕ → List ℕ → ℕ → ℕ
patched read offset bytes i =
    if ltb i offset
    then read i
    else if ltb (i - offset) (length bytes)
    then get_or bytes (i - offset) 0
    else read i

pub length-write :
    (frame : List ℕ) (offset : ℕ) (bytes : List ℕ)
    → offset + length bytes ≤ length frame
    → length (write frame offset bytes) ≡ length frame
unfolding write
length-write frame offset bytes h = omega (
  arith,
  length-append (take offset frame ++ bytes) (drop (offset + length bytes) frame),
  length-append (take offset frame) bytes,
  length-take offset frame,
  length-drop (offset + length bytes) frame,
)

pub byte_at-write :
    (frame : List ℕ) (offset : ℕ) (bytes : List ℕ) (i : ℕ)
    → offset + length bytes ≤ length frame
    → byte_at (write frame offset bytes) i ≡ patched (byte_at frame) offset bytes i
unfolding write
byte_at-write frame offset bytes i h =
    let tail : List ℕ = drop (offset + length bytes) frame in
    let front : length (take offset frame) ≡ offset = omega (arith, length-take offset frame) in
    grind (
      arith,
      front,
      length-append (take offset frame) bytes,
      get_or-append (take offset frame ++ bytes) tail i 0,
      get_or-append (take offset frame) bytes i 0,
      get_or-take offset frame i 0,
      get_or-drop (offset + length bytes) frame (i - (offset + length bytes)) 0,
    )

-- Reading after a swap of two adjacent fields.
abbrev pub swapped : (ℕ → ℕ) → ℕ → ℕ → ℕ → ℕ
swapped read offset size i =
    if ltb i offset
    then read i
    else if ltb (i - offset) size
    then read (i + size)
    else if ltb (i - offset) (size + size)
    then read (i - size)
    else read i

length-slice :
    (frame : List ℕ) (offset size : ℕ)
    → offset + size ≤ length frame
    → length (slice frame offset size) ≡ size
length-slice frame offset size h =
    omega (arith, length-take size (drop offset frame), length-drop offset frame)

get_or-slice :
    (frame : List ℕ) (offset size i : ℕ)
    → i < size
    → get_or (slice frame offset size) i 0 ≡ byte_at frame (offset + i)
get_or-slice frame offset size i h =
    get_or-take size (drop offset frame) i 0 h ∙ get_or-drop offset frame i 0

pub length-swap_fields :
    (frame : List ℕ) (offset size : ℕ)
    → offset + size + size ≤ length frame
    → length (swap_fields frame offset size) ≡ length frame
unfolding swap_fields
length-swap_fields frame offset size h =
    let both : List ℕ = slice frame (offset + size) size ++ slice frame offset size in
    let whole : length both ≡ size + size = omega (
      arith,
      length-append (slice frame (offset + size) size) (slice frame offset size),
      length-slice frame (offset + size) size h,
      length-slice frame offset size (omega arith),
    ) in
    length-write frame offset both (omega arith)

pub byte_at-swap_fields :
    (frame : List ℕ) (offset size i : ℕ)
    → offset + size + size ≤ length frame
    → byte_at (swap_fields frame offset size) i ≡ swapped (byte_at frame) offset size i
unfolding swap_fields
byte_at-swap_fields frame offset size i h =
    let second : List ℕ = slice frame (offset + size) size in
    let first : List ℕ = slice frame offset size in
    let l₂ : length second ≡ size = length-slice frame (offset + size) size h in
    let l₁ : length first ≡ size = length-slice frame offset size (omega arith) in
    let whole : length (second ++ first) ≡ size + size =
      omega (arith, length-append second first) in
    let written = byte_at-write frame offset (second ++ first) i (omega arith) in
    ground (
      arith,
      l₂,
      l₁,
      whole,
      written,
      get_or-append second first (i - offset) 0,
      get_or-slice frame (offset + size) size (i - offset),
      get_or-slice frame offset size (i - offset - size),
    )

pub reads-write :
    (frame : List ℕ) (offset : ℕ) (bytes : List ℕ)
    → offset + length bytes ≤ length frame
    → byte_at (write frame offset bytes) ≡ patched (byte_at frame) offset bytes
reads-write frame offset bytes h = λ k i. byte_at-write frame offset bytes i h k

pub reads-swap_fields :
    (frame : List ℕ) (offset size : ℕ)
    → offset + size + size ≤ length frame
    → byte_at (swap_fields frame offset size) ≡ swapped (byte_at frame) offset size
reads-swap_fields frame offset size h = λ k i. byte_at-swap_fields frame offset size i h k

-- Words as read by a function from offsets to bytes.
abbrev pub word16 : (ℕ → ℕ) → ℕ → ℕ
word16 read i = read i + read (i + 1) * 0x100

abbrev pub word32 : (ℕ → ℕ) → ℕ → ℕ
word32 read i = read i + read (i + 1) * 0x100 + read (i + 2) * 0x1_0000 + read (i + 3) * 0x100_0000

-- A number written in the order of the network is read back.
pub swap32-bytes :
    (x : ℕ)
    → x < u32_mod
    → let y = swap32 x in
      swap32 (
        y % 0x100
        + y / 0x100 % 0x100 * 0x100
        + y / 0x1_0000 % 0x100 * 0x1_0000
        + y / 0x100_0000 % 0x100 * 0x100_0000)
      ≡ x
swap32-bytes x h = omega arith
