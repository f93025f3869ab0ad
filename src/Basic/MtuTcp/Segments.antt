-- ===== src/Basic/MtuTcp/Segments.antt =====
-- Segments of a TCP stream that a capture of net-drv-ts/basic/mtu_tcp.c may hold, and how the last, the
-- first shorter and the too big ones change with one more segment.
use net_drv_ts.Base.{
  ℕ, ◌+◌, ◌-◌, ◌%◌, ◌^◌, ◌<◌, ◌≤◌, ◌≡◌, ◌⊎◌, inl, inr, refl, ap, ◌∙◌, Bool, true, false, ◌||◌, List,
  [], ◌∷◌, ltb, if_true, if_false, if◌then◌else◌, ℤ, pos, is_negative, ok, Bool-cases, arith,
  ltb→lt,
}
use net_drv_ts.Basic.MtuTcp.{Packet, to_int, before}

-- A segment: the length of its payload, and its sequence number.
abbrev pub Segment : Type 0
Segment = ℕ × ℕ

abbrev pub as_packet : Segment → Packet
as_packet (len, seqn) = record { pld_len = ok len; seqn = ok seqn }

abbrev pub Caught : Segment → List Segment → Type 0
Caught x [] = ⊥
Caught x (y ∷ ys) = (x ≡ y) ⊎ Caught x ys

-- How far a sequence number is from `start`, modulo 2^32
abbrev pub offset : ℕ → ℕ → ℕ
offset start seqn = (seqn + 2 ^ 32 - start) % 2 ^ 32

-- Sequence numbers, and lengths, of less than 2^31 bytes of a stream.
pub record InWindow (start : ℕ) (x : Segment) : Type 0 where
  pub len_fits : x.0 < 2 ^ 31
  pub seqn_fits : x.1 < 2 ^ 32
  pub near : offset start x.1 < 2 ^ 31

pub offset-inj :
    (start a b : ℕ)
    → start < 2 ^ 32
    → a < 2 ^ 32
    → b < 2 ^ 32
    → offset start a ≡ offset start b
    → a ≡ b
offset-inj start a b hs ha hb h = omega arith

pub to_int-eq : (n : ℕ) → n < 2 ^ 31 → to_int n ≡ pos n
to_int-eq n h = ground arith

-- What is relied on of tapi_tcp_compare_seqn(): it compares numbers of a window.
abbrev pub CompareLaw : (ℤ → ℤ → ℤ) → ℕ → Type 0
CompareLaw compare start =
    (a b : ℕ)
    → a < 2 ^ 32
    → b < 2 ^ 32
    → offset start a < 2 ^ 31
    → offset start b < 2 ^ 31
    → is_negative (compare (pos a) (pos b)) ≡ ltb (offset start a) (offset start b)

-- No segment is longer than `max`, and after a shorter one there is no other.
pub record IsSegmented (max start : ℕ) (xs : List Segment) : Type 0 where
  pub fits : (x : Segment) → Caught x xs → x.0 ≤ max
  pub short_last :
      (x y : Segment) → Caught x xs → Caught y xs → x.0 < max → offset start y.1 ≤ offset start x.1

-- Of the segments `done`: the last, the first shorter one, and whether one is longer than `max`.
module _ (max start : ℕ) where
  abbrev pub Last : List Segment → ℤ → Type 0
  Last done l =
      (x : Segment) × Caught x done
      × (l ≡ pos x.1)
      × ((y : Segment) → Caught y done → offset start y.1 ≤ offset start x.1)

  abbrev pub Small : List Segment → ℤ → Type 0
  Small done f =
      ((is_negative f ≡ true) × ((x : Segment) → Caught x done → max ≤ x.0))
      ⊎ ((x : Segment) × Caught x done
          × (f ≡ pos x.1)
          × (x.0 < max)
          × ((y : Segment) → Caught y done → y.0 < max → offset start x.1 ≤ offset start y.1))

  abbrev pub Big : List Segment → Bool → Type 0
  Big done b =
      ((b ≡ false) × ((x : Segment) → Caught x done → x.0 ≤ max))
      ⊎ ((b ≡ true) × (x : Segment) × Caught x done × (max < x.0))

  pub Big-keep :
      (done : List Segment) (x : Segment) (b : Bool) → x.0 ≤ max → Big done b → Big (x ∷ done) b
  Big-keep done x b fits (inl (h, all)) =
      inl (h, λ y c. elim c [ inl e ↦ omega (arith, ap (λ q. q.0) e) | inr m ↦ all y m ])
  Big-keep done x b fits (inr (h, y, caught, long)) = inr (h, y, inr caught, long)

  pub Small-skip :
      (done : List Segment) (x : Segment) (f : ℤ) → max ≤ x.0 → Small done f → Small (x ∷ done) f
  Small-skip done x f long (inl (neg, none_small)) =
      inl (neg, λ z h. elim h [ inl e ↦ omega (arith, ap (λ q. q.0) e) | inr m ↦ none_small z m ])
  Small-skip done x f long (inr (y, caught, at, less, low)) = inr (
    y,
    inr caught,
    at,
    less,
    λ z h le. elim h [ inl e ↦ absurd (omega (arith, ap (λ q. q.0) e)) | inr m ↦ low z m le ],
  )

  module _ (compare : ℤ → ℤ → ℤ) (law : CompareLaw compare start) where
    pub Last-step :
        (done : List Segment) (x : Segment) (l : ℤ)
        → InWindow start x
        → ((y : Segment) → Caught y done → InWindow start y)
        → Last done l
        → Last (x ∷ done) (if before compare l (pos x.1) then pos x.1 else l)
    Last-step done x l wx wd (y, caught, at, high) =
        let same : before compare l (pos x.1) ≡ ltb (offset start y.1) (offset start x.1) =
          ap (λ u. before compare u (pos x.1)) at
          ∙ law y.1 x.1 (wd y caught).seqn_fits wx.seqn_fits (wd y caught).near wx.near in
        elim (Bool-cases (ltb (offset start y.1) (offset start x.1))) [
          | inl up ↦ (
            x,
            inl refl,
            if_true _ _ (same ∙ up),
            λ z h. elim h [
              | inl e ↦ omega (arith, ap (λ q. offset start q.1) e)
              | inr m ↦ omega (arith, high z m, ltb→lt _ _ up)
            ],
          )
          | inr down ↦ (
            y,
            inr caught,
            if_false _ _ (same ∙ down) ∙ at,
            λ z h. elim h [
              | inl e ↦ ground (arith, ap (λ q. offset start q.1) e, down)
              | inr m ↦ high z m
            ],
          )
        ]

    pub Small-step :
        (done : List Segment) (x : Segment) (f : ℤ)
        → InWindow start x
        → ((y : Segment) → Caught y done → InWindow start y)
        → Small done f
        → x.0 < max
        → Small (x ∷ done) (if is_negative f || before compare (pos x.1) f then pos x.1 else f)
    Small-step done x f wx wd (inl (neg, none_small)) short = inr (
      x,
      inl refl,
      if_true _ _ (ap (λ b. b || before compare (pos x.1) f) neg),
      short,
      λ y h le. elim h [
        | inl e ↦ omega (arith, ap (λ q. offset start q.1) e)
        | inr m ↦ absurd (omega (arith, none_small y m))
      ],
    )
    Small-step done x f wx wd (inr (y, caught, at, less, low)) short =
        let same : (is_negative f || before compare (pos x.1) f)
            ≡ ltb (offset start x.1) (offset start y.1) =
          ap (λ u. is_negative u || before compare (pos x.1) u) at
          ∙ law x.1 y.1 wx.seqn_fits (wd y caught).seqn_fits wx.near (wd y caught).near in
        elim (Bool-cases (ltb (offset start x.1) (offset start y.1))) [
          | inl up ↦ inr (
            x,
            inl refl,
            if_true _ _ (same ∙ up),
            short,
            λ z h le. elim h [
              | inl e ↦ omega (arith, ap (λ q. offset start q.1) e)
              | inr m ↦ omega (arith, low z m le, ltb→lt _ _ up)
            ],
          )
          | inr down ↦ inr (
            y,
            inr caught,
            if_false _ _ (same ∙ down) ∙ at,
            less,
            λ z h le. elim h [
              | inl e ↦ ground (arith, ap (λ q. offset start q.1) e, down)
              | inr m ↦ low z m le
            ],
          )
        ]
