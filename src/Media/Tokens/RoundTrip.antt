-- ===== src/Media/Tokens/RoundTrip.antt =====
-- Tokens signed and verified with one key, in backend/internal/media/access.go.
use ketapod_website.Base.{
  ℕ, zero, suc, ◌+◌, ◌*◌, ◌/◌, ◌%◌, ◌≤◌, ◌<◌, ◌≡◌, ◌≢◌, refl, ap, ◌∙◌, Bool, true, false, ◌&&◌,
  some, [], ◌∷◌, ◌++◌, leb, arith, ==_refl,
}
use ketapod_website.Base.Int.{pos, ◌*ℤ◌, ltb_ℤ, int64_half, mul_pos}
use ketapod_website.Base.Text.{Bytes, bytes_eq_refl, cut, contains_byte, digits, digits_from}
use ketapod_website.Media.{parse_int}
use ketapod_website.Media.Tokens.{
  Signer, second, emit, print, print_ℤ, split, payload, sign, verify,
}

cut_lem :
    (b : ℕ) (s rest : Bytes) → contains_byte b s ≡ false → cut b (s ++ (b ∷ rest)) ≡ some (s, rest)
cut_lem b [] rest h = rw (==_refl b)
cut_lem b (c ∷ cs) rest h = ground (arith, cut_lem b cs rest)

split_lem :
    (b : ℕ) (s rest : Bytes)
    → contains_byte b s ≡ false
    → split b (s ++ (b ∷ rest)) ≡ s ∷ split b rest
unfolding split
split_lem b [] rest h = rw (==_refl b)
split_lem b (c ∷ cs) rest h = ground (arith, split_lem b cs rest)

split_last : (b : ℕ) (s : Bytes) → contains_byte b s ≡ false → split b s ≡ s ∷ []
unfolding split
split_last b [] h = refl
split_last b (c ∷ cs) h = ground (arith, split_last b cs)

-- Printed numbers.
abbrev is_number : Bytes → Bool
is_number [] = true
is_number (c ∷ cs) = leb 48 c && leb c 57 && is_number cs

emit-is_number : (f n : ℕ) (out : Bytes) → is_number out ≡ true → is_number (emit f n out) ≡ true
emit-is_number zero n out h = h
emit-is_number (suc f) n out h = ground (arith, emit-is_number f (n / 10) ((48 + n % 10) ∷ out))

number-contains_byte : (s : Bytes) → is_number s ≡ true → contains_byte b'|' s ≡ false
number-contains_byte [] h = refl
number-contains_byte (c ∷ cs) h = ground (arith, number-contains_byte cs)

digits_from-emit :
    (f n : ℕ) (out : Bytes) → n < f → digits_from 0 (emit f n out) ≡ digits_from n out
digits_from-emit zero n out h = absurd (omega arith)
digits_from-emit (suc f) n out h = ground (arith, digits_from-emit f (n / 10) ((48 + n % 10) ∷ out))

parse_int-number :
    (s : Bytes) {n : ℕ}
    → is_number s ≡ true
    → digits s ≡ some n
    → n < int64_half
    → parse_int s ≡ some (pos n)
parse_int-number [] h e small = cc
parse_int-number (c ∷ cs) h e small = ground arith

emit_nonempty : (f n c : ℕ) (cs : Bytes) → emit f n (c ∷ cs) ≢ []
emit_nonempty zero n c cs h = cc
emit_nonempty (suc f) n c cs h = ground (arith, emit_nonempty f (n / 10) (48 + n % 10) (c ∷ cs))

print_nonempty : (n : ℕ) → print n ≢ []
unfolding print
print_nonempty n h = ground (arith, emit_nonempty n (n / 10) (48 + n % 10) [])

digits-of : (s : Bytes) → s ≢ [] → digits s ≡ digits_from 0 s
digits-of [] h = absurd (h refl)
digits-of (c ∷ cs) h = refl

parse_int-print : (n : ℕ) → n < int64_half → parse_int (print n) ≡ some (pos n)
unfolding print
parse_int-print n small =
    parse_int-number (print n) (emit-is_number (suc n) n [] refl)
      (digits-of (print n) (print_nonempty n) ∙ digits_from-emit (suc n) n [] (omega arith)) small

print-contains_byte : (n : ℕ) → contains_byte b'|' (print n) ≡ false
unfolding print
print-contains_byte n = number-contains_byte (print n) (emit-is_number (suc n) n [] refl)

split_payload :
    (signer : Signer) (clock n : ℕ) (asset : Bytes)
    → contains_byte b'|' asset ≡ false
    → split b'|' (payload signer clock asset (pos n))
      ≡ asset ∷ print ((clock + signer.ttl) / second) ∷ print n ∷ []
unfolding payload print_ℤ
split_payload signer clock n asset plain =
    split_lem b'|' asset _ plain
    ∙ ap (λ t. asset ∷ t)
        (split_lem b'|' (print ((clock + signer.ttl) / second)) _
            (print-contains_byte ((clock + signer.ttl) / second))
          ∙ ap (λ t. print ((clock + signer.ttl) / second) ∷ t)
              (split_last b'|' (print n) (print-contains_byte n)))

-- A token that is verified with the key that signed it, at a time up to the expiry in whole seconds,
-- gives back the asset, the expiry and the seconds that were signed. (Base64 decodes what it encodes,
-- and writes no dot; the id of the asset has no bar in it; the numbers fit an int64.)
pub verify-sign :
    (signer : Signer) (clock now n : ℕ) (asset : Bytes)
    → ((s : Bytes) → signer.decode (signer.encode s) ≡ some s)
    → ((s : Bytes) → contains_byte b'.' (signer.encode s) ≡ false)
    → contains_byte b'|' asset ≡ false
    → n < int64_half
    → (clock + signer.ttl) / second < int64_half
    → now ≤ (clock + signer.ttl) / second * second
    → verify signer now (sign signer clock asset (pos n))
      ≡ some (record {
        asset_id = asset;
        expires_at = pos ((clock + signer.ttl) / second);
        max_seconds = pos n;
      })
unfolding verify sign
verify-sign signer clock now n asset decodes undotted plain small early live = rw (
  cut_lem b'.' (signer.encode (payload signer clock asset (pos n)))
      (signer.mac (signer.encode (payload signer clock asset (pos n))))
      (undotted (payload signer clock asset (pos n))),
  bytes_eq_refl (signer.mac (signer.encode (payload signer clock asset (pos n)))),
  decodes (payload signer clock asset (pos n)),
  split_payload signer clock n asset plain,
  parse_int-print ((clock + signer.ttl) / second) early,
  parse_int-print n small,
  in_time,
)
  where
    in_time : ltb_ℤ (pos ((clock + signer.ttl) / second) *ℤ pos second) (pos now) ≡ false
    in_time = rw (mul_pos ((clock + signer.ttl) / second) second) (ground arith)
