-- ===== src/Callbacks/Verifier.antt =====
-- internal/app/callback/verifier.go. A header and the body are lists of bytes, the headers in ASCII;
-- instants are numbers of nanoseconds. The store of the nonces is the list of its keys with the instants
-- up to which they live.
pub mod Once
pub mod Accepted
use startlink.Base.{
  ℕ, zero, suc, ◌+◌, ◌-◌, ◌*◌, ◌/◌, ◌%◌, ◌^◌, Bool, true, false, not, ◌&&◌, ◌||◌, List, [], ◌∷◌,
  ◌++◌, Option, none, some, ◌==◌, ltb, leb, length, any, delete_where, if◌then◌else◌,
}
use startlink.Domain.Text.{Text, codes, text_eq, trim_space, Number, atoi}

-- Verifier, with the Redis client there or not.
pub record Verifier : Type 0 where
  pub required : Bool
  pub secret : Text
  pub max_skew : ℕ
  pub has_store : Bool

-- HMAC-SHA-256 of a text under a key, and SHA-256.
pub record Crypto : Type 0 where
  pub mac : Text → Text → Text
  pub sha256 : Text → Text

pub data Verdict : Type 0 where
  accepted unauthorized store_error : Verdict

-- strconv.ParseInt(timestamp, 10, 64)
unfoldable pub fits : Number → Bool
fits n = if n.negative then leb n.size (2 ^ 63) else ltb n.size (2 ^ 63)

unfoldable pub parse_int : Text → Option Number
unfolding fits
parse_int s = elim (atoi s) [ none ↦ none | some n ↦ if fits n then some n else none ]

-- Is the instant no further than the skew from the time of the request?
unfoldable pub in_skew : ℕ → ℕ → Number → Bool
in_skew skew now n =
    if n.negative
    then leb (now + n.size * 1000000000) skew
    else leb now (n.size * 1000000000 + skew) && leb (n.size * 1000000000) (now + skew)

-- strings.TrimPrefix
unfoldable pub trim_prefix : Text → Text → Text → Text
trim_prefix [] whole rest = rest
trim_prefix (p ∷ ps) whole [] = whole
trim_prefix (p ∷ ps) whole (c ∷ cs) =
    let trimmed = trim_prefix ps whole cs in if p == c then trimmed else whole

-- A hexadecimal digit, of either case.
unfoldable pub hex_digit : ℕ → Option ℕ
hex_digit c =
    if leb 48 c && leb c 57
    then some (c - 48)
    else (if leb 97 c && leb c 102
        then some (c - 87)
        else (if leb 65 c && leb c 70 then some (c - 55) else none))

unfoldable pub put_byte : Option ℕ → Option ℕ → Option Text → Option Text
put_byte (some high) (some low) (some rest) = some ((16 * high + low) ∷ rest)
put_byte high low rest = none

-- hex.DecodeString
unfoldable pub decode_string : Text → Option Text
unfolding hex_digit put_byte
decode_string [] = some []
decode_string (high ∷ []) = none
decode_string (high ∷ low ∷ rest) = put_byte (hex_digit high) (hex_digit low) (decode_string rest)

unfoldable pub hex_char : ℕ → ℕ
hex_char n = if ltb n 10 then 48 + n else 87 + n

-- hex.EncodeToString
unfoldable pub encode_to_string : Text → Text
unfolding hex_char
encode_to_string [] = []
encode_to_string (b ∷ rest) = hex_char (b / 16) ∷ hex_char (b % 16) ∷ encode_to_string rest

unfoldable pub nonce_key : Crypto → Text → Text
nonce_key c nonce = codes "starlink:callback:nonce:" ++ encode_to_string (c.sha256 nonce)

-- timestamp + "\n" + nonce + "\n" + body
unfoldable pub signed_text : Text → Text → Text → Text
signed_text timestamp nonce body = timestamp ++ (10 ∷ nonce ++ (10 ∷ body))

unfoldable pub signature_of : Text → Option Text
unfolding trim_space trim_prefix decode_string
signature_of signature =
    let s = trim_space signature in decode_string (trim_prefix (codes "sha256=") s s)

unfoldable pub signed_by : Crypto → Text → Text → Option Text → Bool
signed_by c secret text none = false
signed_by c secret text (some actual) = text_eq (c.mac secret text) actual

-- The conditions that are checked before the store is asked.
unfoldable pub is_signed : Verifier → Crypto → ℕ → Text → Text → Text → Text → Bool
unfolding parse_int in_skew signed_text signature_of signed_by
is_signed v c now timestamp nonce signature body =
    not (ltb (length v.secret) 32 || ltb (length nonce) 8 || ltb 128 (length nonce))
    && elim (parse_int timestamp) [ none ↦ false | some n ↦ in_skew v.max_skew now n ]
    && signed_by c v.secret (signed_text timestamp nonce body) (signature_of signature)

abbrev pub Store : Type 0
Store = List (Text × ℕ)

-- A key that lives at an instant.
unfoldable pub lives : Text → ℕ → Text × ℕ → Bool
lives key now e = text_eq e.0 key && leb now e.1

-- SETNX with a time to live: was the key set?
unfoldable pub set_nx : Text → ℕ → ℕ → Store → Bool × Store
unfolding lives
set_nx key now ttl store =
    if any (lives key now) store
    then (false, store)
    else (true, (key, now + ttl) ∷ delete_where (λ e. text_eq e.0 key) store)

unfoldable pub after_set : Bool × Store → Verdict × Store
after_set (true, store) = (accepted, store)
after_set (false, store) = (unauthorized, store)

-- Verify. The clock is read at `now`, and the store is asked at `later`, which may fail.
unfoldable pub verify :
    Verifier → Crypto → ℕ → ℕ → Bool → Text → Text → Text → Text → Store → Verdict × Store
unfolding is_signed nonce_key set_nx after_set
verify v c now later fails timestamp nonce signature body store =
    if not v.required
    then (accepted, store)
    else (if not (is_signed v c now timestamp nonce signature body)
        then (unauthorized, store)
        else (if not v.has_store || fails
            then (store_error, store)
            else after_set (set_nx (nonce_key c nonce) later (2 * v.max_skew) store)))
