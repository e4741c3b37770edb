-- ===== src/Media/Tokens.antt =====
-- `Signer` of backend/internal/media/access.go. The MAC and base64 are parameters, and a clock is in
-- nanoseconds.
pub mod RoundTrip
use ketapod_website.Base.{
  ℕ, zero, suc, ◌+◌, ◌*◌, ◌/◌, ◌%◌, ◌^◌, Bool, true, false, Option, none, some, List, [], ◌∷◌, ◌++◌,
  ltb, ◌==◌, if◌then◌else◌,
}
use ketapod_website.Base.Int.{ℤ, pos, negsuc, leb_ℤ, ltb_ℤ, ◌*ℤ◌}
use ketapod_website.Base.Text.{Bytes, bytes_eq, cut}
use ketapod_website.Media.{parse_int}

pub record StreamToken : Type 0 where
  pub asset_id : Bytes
  pub expires_at : ℤ
  pub max_seconds : ℤ

-- The key is in `mac`, whose result is base64 text.
pub record Signer : Type 0 where
  pub mac : Bytes → Bytes
  pub encode : Bytes → Bytes
  pub decode : Bytes → Option Bytes
  pub ttl : ℕ

abbrev pub second : ℕ
second = 10 ^ 9

-- The time to live that `NewSigner` keeps.
unfoldable pub default_ttl : ℤ → ℤ
default_ttl ttl = if leb_ℤ ttl (pos 0) then pos (900 * second) else ttl

abbrev pub emit : ℕ → ℕ → Bytes → Bytes
emit zero n out = out
emit (suc f) n out =
    let rest = emit f (n / 10) ((48 + n % 10) ∷ out) in if ltb n 10 then (48 + n) ∷ out else rest

-- %d
unfoldable pub print : ℕ → Bytes
print n = emit (suc n) n []

unfoldable pub print_ℤ : ℤ → Bytes
unfolding print
print_ℤ (pos n) = print n
print_ℤ (negsuc n) = b'-' ∷ print (suc n)

abbrev pub push_byte : ℕ → List Bytes → List Bytes
push_byte c [] = (c ∷ []) ∷ []
push_byte c (p ∷ ps) = (c ∷ p) ∷ ps

-- strings.Split at one byte.
unfoldable pub split : ℕ → Bytes → List Bytes
split b [] = [] ∷ []
split b (c ∷ cs) = let rest = split b cs in if c == b then [] ∷ rest else push_byte c rest

module _ (signer : Signer) (clock : ℕ) where
  unfoldable pub payload : Bytes → ℤ → Bytes
  payload asset max =
      asset ++ (b'|' ∷ (print ((clock + signer.ttl) / second) ++ (b'|' ∷ print_ℤ max)))

  -- `Sign`
  unfoldable pub sign : Bytes → ℤ → Bytes
  sign asset max =
      let encoded = signer.encode (payload asset max) in encoded ++ (b'.' ∷ signer.mac encoded)

  abbrev pub read_max : Bytes → ℤ → Option ℤ → Option StreamToken
  read_max asset exp none = none
  read_max asset exp (some max) =
      some (record { asset_id = asset; expires_at = exp; max_seconds = max })

  abbrev pub read_expiry : Bytes → Option ℤ → Bytes → Option StreamToken
  read_expiry asset none rest = none
  read_expiry asset (some exp) rest =
      if ltb_ℤ (exp *ℤ pos second) (pos clock) then none else read_max asset exp (parse_int rest)

  abbrev pub read_parts : List Bytes → Option StreamToken
  read_parts (a ∷ e ∷ m ∷ []) = read_expiry a (parse_int e) m
  read_parts _ = none

  abbrev pub read_decoded : Option Bytes → Option StreamToken
  read_decoded none = none
  read_decoded (some raw) = read_parts (split b'|' raw)

  abbrev pub read_cut : Option (Bytes × Bytes) → Option StreamToken
  read_cut none = none
  read_cut (some (encoded, signature)) =
      if bytes_eq signature (signer.mac encoded) then read_decoded (signer.decode encoded) else none

  -- `Verify`; `none` is ErrInvalidStreamToken.
  unfoldable pub verify : Bytes → Option StreamToken
  unfolding split
  verify token = read_cut (cut b'.' token)
