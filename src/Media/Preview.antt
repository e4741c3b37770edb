-- ===== src/Media/Preview.antt =====
-- What a listener of a preview may read.
use ketapod_website.Base.{
  ℕ, ◌+◌, ◌*◌, ◌<◌, ◌≡◌, ap, ◌∙◌, inl, inr, false, Option, none, some, [], ◌∷◌, arith, Bool-cases,
}
use mathlib.Core.Path.{subst}
use ketapod_website.Base.Int.{
  ℤ, pos, ◌+ℤ◌, ◌-ℤ◌, ◌*ℤ◌, ◌≤ℤ◌, ◌<ℤ◌, ltb_ℤ, leb_ℤ, min_ℤ, quot, wrap64, wrap64_fits, Int64,
  int64_half, mul_pos,
}
use ketapod_website.Base.Text.{Bytes, contains_byte, cut, cut_prefix, trim_left, trim_right}
use ketapod_website.Media.{
  parse_int, parsed_end, clamp_end, clamp_start, clamp_parts, clamp_spec, clamp_header, clamp_range,
  preview_byte_limit, bytes_unit,
}

-- A range that is not empty, not negative and ends before the limit.
pub record IsInside (limit : ℤ) (r : ℤ × ℤ) : Type 0 where
  pub from_start : pos 0 ≤ℤ r.0
  pub in_order : r.0 ≤ℤ r.1
  pub before_limit : r.1 <ℤ limit

last_byte : (limit : ℤ) → Int64 limit → pos 0 <ℤ limit → wrap64 (limit -ℤ pos 1) ≡ limit -ℤ pos 1
unfolding ◌-ℤ◌
last_byte limit h p = wrap64_fits _ (ground arith)

module _ (limit : ℤ) (fits : Int64 limit) (positive : pos 0 <ℤ limit) where
  whole-IsInside : (s : ℤ) → pos 0 ≤ℤ s → s <ℤ limit → IsInside limit (s, limit -ℤ pos 1)
  unfolding ◌-ℤ◌
  whole-IsInside s p q = record {
    from_start = p;
    in_order = ground arith;
    before_limit = ground arith;
  }

  part-IsInside :
      (s e : ℤ) → pos 0 ≤ℤ s → s <ℤ limit → s ≤ℤ e → IsInside limit (s, min_ℤ e (limit -ℤ pos 1))
  unfolding ◌-ℤ◌ min_ℤ
  part-IsInside s e p q o = record {
    from_start = p;
    in_order = ground arith;
    before_limit = ground arith;
  }

  -- The result, where there is one, is inside.
  abbrev AllInside : Option (ℤ × ℤ) → Type 0
  AllInside none = Unit {0}
  AllInside (some r) = IsInside limit r

  end-inside : (s : ℤ) (o : Option ℤ) → pos 0 ≤ℤ s → s <ℤ limit → AllInside (parsed_end limit s o)
  end-inside s none p q = tt
  end-inside s (some e) p q = elim (Bool-cases (ltb_ℤ e s)) [
    | inl short ↦ rw short tt
    | inr ordered ↦
        rw (ordered, last_byte limit fits positive) (part-IsInside s e p q (ground arith))
  ]

  clamp_end-inside :
      (s : ℤ) (rest : Bytes) → pos 0 ≤ℤ s → s <ℤ limit → AllInside (clamp_end limit s rest)
  unfolding clamp_end
  clamp_end-inside s [] p q = rw (last_byte limit fits positive) (whole-IsInside s p q)
  clamp_end-inside s (c ∷ cs) p q = end-inside s (parse_int (c ∷ cs)) p q

  clamp_start-inside : (o : Option ℤ) (rest : Bytes) → AllInside (clamp_start limit o rest)
  unfolding clamp_start
  clamp_start-inside none rest = tt
  clamp_start-inside (some s) rest = elim (Bool-cases (ltb_ℤ s (pos 0))) [
    | inl negative ↦ rw negative tt
    | inr from_start ↦ elim (Bool-cases (leb_ℤ limit s)) [
      | inl past ↦ rw (from_start, past) tt
      | inr before ↦ rw (from_start, before) (clamp_end-inside s rest (ground arith) (ground arith))
    ]
  ]

  clamp_parts-inside : (o : Option (Bytes × Bytes)) → AllInside (clamp_parts limit o)
  clamp_parts-inside none = tt
  clamp_parts-inside (some ([], rest)) = tt
  clamp_parts-inside (some (c ∷ cs, rest)) = clamp_start-inside (parse_int (c ∷ cs)) rest

  clamp_spec-inside : (o : Option Bytes) → AllInside (clamp_spec limit o)
  clamp_spec-inside none = tt
  clamp_spec-inside (some s) = elim (Bool-cases (contains_byte b',' s)) [
    | inl several ↦ rw several tt
    | inr single ↦ rw single (clamp_parts-inside (cut b'-' s))
  ]

  clamp_header-inside : (h : Bytes) → AllInside (clamp_header limit h)
  clamp_header-inside [] =
      rw (last_byte limit fits positive) (whole-IsInside (pos 0) (omega arith) positive)
  clamp_header-inside (c ∷ cs) =
      clamp_spec-inside (cut_prefix bytes_unit (trim_right (trim_left (c ∷ cs))))

  AllInside-some : (o : Option (ℤ × ℤ)) {r : ℤ × ℤ} → AllInside o → o ≡ some r → IsInside limit r
  AllInside-some none h e = cc
  AllInside-some (some q) {r} h e =
      let same : q ≡ r = ground (arith, e) in subst (IsInside limit) same h

-- Whatever the header says, a range that is granted under a limit that fits an int64 starts at a
-- byte of the file, is not empty and ends before the limit, which is then positive.
pub clamp_range-IsInside :
    (header : Bytes) (limit : ℤ) (r : ℤ × ℤ)
    → Int64 limit
    → clamp_range header limit ≡ some r
    → (pos 0 <ℤ limit) × IsInside limit r
unfolding clamp_range
clamp_range-IsInside header limit r fits h = elim (Bool-cases (leb_ℤ limit (pos 0))) [
  | inl nothing ↦ let refused : none ≡ some r = rw nothing at h in absurd (cc refused)
  | inr some_bytes ↦
      let positive : pos 0 <ℤ limit = ground arith in
      let granted : clamp_header limit header ≡ some r = rw some_bytes at h in
      (
        positive,
        AllInside-some limit fits positive _ (clamp_header-inside limit fits positive header)
            granted,
      )
]

quot_eighth : (n : ℕ) → quot (pos (n * 1_000)) 8 ≡ pos (n * 125)
unfolding quot
quot_eighth n = ground arith

plus_headroom : (n : ℕ) → n + 65_536 < int64_half → wrap64 (pos n +ℤ pos 65_536) ≡ pos (n + 65_536)
unfolding ◌+ℤ◌
plus_headroom n h = ap wrap64 (ground arith) ∙ wrap64_fits (pos (n + 65_536)) (ground arith)

-- A preview of n seconds at k kbit, both positive and small enough for an int64, is given n * k *
-- 125 bytes, which is exactly what it plays, and the 64 KiB for the container.
pub preview_byte_limit_exact :
    (n k : ℕ)
    → 0 < n
    → 0 < k
    → n * k * 1_000 + 65_536 < int64_half
    → preview_byte_limit (pos n) (pos k) ≡ pos (n * k * 125 + 65_536)
unfolding preview_byte_limit
preview_byte_limit_exact n k p q fits =
    let a : wrap64 (pos n *ℤ pos k) ≡ pos (n * k) =
      ap wrap64 (mul_pos n k) ∙ wrap64_fits (pos (n * k)) (grind arith) in
    let b : wrap64 (pos (n * k) *ℤ pos 1_000) ≡ pos (n * k * 1_000) =
      ap wrap64 (mul_pos (n * k) 1_000) ∙ wrap64_fits (pos (n * k * 1_000)) (grind arith) in
    let long : leb_ℤ (pos n) (pos 0) ≡ false = ground arith in
    let fast : leb_ℤ (pos k) (pos 0) ≡ false = ground arith in
    rw (long, fast, a, b, quot_eighth (n * k)) (plus_headroom (n * k * 125) (grind arith))
