-- ===== src/Base/Text.antt =====
-- Python's `str` where the source looks inside one: truth, ASCII, UTF-8, decimal digits.
use Prim.Native.Nat.{ℕ, zero, suc, ◌+◌, ◌-◌, ◌*◌, ◌/◌, ◌%◌}
use Prim.Native.Char.{Char, code}
use Prim.Native.String.{String, ◌++◌ as ◌<>◌}
use mathlib.Core.Path.{◌≡◌, refl}
use mathlib.Core.Bool.{Bool, true, false, not, ◌&&◌}
use mathlib.Core.Option.{Option, none, some}
use native.Mathlib.Omega.{arith}
use mathlib.Core.List.{List, [], ◌∷◌, ◌++◌}
use oopsys_agent.Base.Tests.{ltb, leb, ◌==◌, if◌then◌else◌}

-- `bool(s)` of a string
abbrev pub is_truthy : String → Bool
is_truthy String.[] = false
is_truthy (String.◌∷◌ c s) = true

-- `bool(s)` of a `str | None`
abbrev pub is_set : Option String → Bool
is_set none = false
is_set (some s) = is_truthy s

-- `s.isascii()`
abbrev pub is_ascii : String → Bool
is_ascii String.[] = true
is_ascii (String.◌∷◌ c s) = ltb (code c) 128 && is_ascii s

-- One code point of `s.encode("utf-8")`
encode_char : ℕ → List ℕ
encode_char c =
    if ltb c 0x80
    then c ∷ []
    else if ltb c 0x800
    then (0xC0 + c / 64) ∷ (0x80 + c % 64) ∷ []
    else if ltb c 0x10000
    then (0xE0 + c / 4096) ∷ (0x80 + c / 64 % 64) ∷ (0x80 + c % 64) ∷ []
    else (0xF0 + c / 262144) ∷ (0x80 + c / 4096 % 64) ∷ (0x80 + c / 64 % 64) ∷ (0x80 + c % 64) ∷ []

-- `s.encode("utf-8")`
unfoldable pub encode_utf8 : String → List ℕ
unfolding encode_char
encode_utf8 String.[] = []
encode_utf8 (String.◌∷◌ c s) = encode_char (code c) ++ encode_utf8 s

-- `digits[n]`; the second clause is out of range, which no caller reaches on a byte.
abbrev pub pick : String → ℕ → Char
pick String.[] n = "?"
pick (String.◌∷◌ c s) zero = c
pick (String.◌∷◌ c s) (suc n) = pick s n

abbrev pub all_chars : (Char → Bool) → String → Bool
all_chars p String.[] = true
all_chars p (String.◌∷◌ c s) = p c && all_chars p s

-- `bytes.hex()`
unfoldable pub hexdigest : List ℕ → String
hexdigest [] = ""
hexdigest (b ∷ bs) =
    String.◌∷◌ (pick "0123456789abcdef" (b / 16))
      (String.◌∷◌ (pick "0123456789abcdef" (b % 16)) (hexdigest bs))

-- `s.rstrip(c)` for a single character
unfoldable pub rstrip : Char → String → String
rstrip c String.[] = ""
rstrip c (String.◌∷◌ d s) =
    let rest = rstrip c s in
    if is_truthy rest then String.◌∷◌ d rest else if code d == code c then "" else String.◌∷◌ d rest

abbrev alphabet : String
alphabet = "ABCDEFGHIJKLMNOPQRSTUVWXYZabcdefghijklmnopqrstuvwxyz0123456789-_"

-- `base64.urlsafe_b64encode(b)`
unfoldable pub urlsafe_b64encode : List ℕ → String
urlsafe_b64encode [] = ""
urlsafe_b64encode (a ∷ []) =
    String.◌∷◌ (pick alphabet (a / 4)) (String.◌∷◌ (pick alphabet (a % 4 * 16)) "==")
urlsafe_b64encode (a ∷ b ∷ []) =
    String.◌∷◌ (pick alphabet (a / 4)) (
      String.◌∷◌ (pick alphabet (a % 4 * 16 + b / 16))
        (String.◌∷◌ (pick alphabet (b % 16 * 4)) "="))
urlsafe_b64encode (a ∷ b ∷ c ∷ rest) = String.◌∷◌ (pick alphabet (a / 4)) (
    String.◌∷◌ (pick alphabet (a % 4 * 16 + b / 16)) (
      String.◌∷◌ (pick alphabet (b % 16 * 4 + c / 64))
        (String.◌∷◌ (pick alphabet (c % 64)) (urlsafe_b64encode rest))))

-- `secrets.token_urlsafe`, from the random bytes that it draws
unfoldable pub token_urlsafe : List ℕ → String
unfolding urlsafe_b64encode rstrip
token_urlsafe bytes = rstrip "=" (urlsafe_b64encode bytes)

-- `str(n)`: a number has fewer digits than its value plus one.
unfoldable pub show_fuel : ℕ → ℕ → String
show_fuel zero n = ""
show_fuel (suc fuel) n =
    let high = show_fuel fuel (n / 10) in
    let low : String = String.◌∷◌ (pick "0123456789" (n % 10)) "" in
    if ltb n 10 then low else high <> low

unfoldable pub show_ℕ : ℕ → String
unfolding show_fuel
show_ℕ n = show_fuel (suc n) n

pick-holds :
    (p : Char → Bool) (s : String) (n : ℕ)
    → all_chars p s ≡ true
    → p "?" ≡ true
    → p (pick s n) ≡ true
pick-holds p String.[] n h d = d
pick-holds p (String.◌∷◌ c s) zero h d = ground arith
pick-holds p (String.◌∷◌ c s) (suc n) h d = pick-holds p s n (ground arith) d

abbrev is_ascii_char : Char → Bool
is_ascii_char c = ltb (code c) 128

pub hexdigest-is_ascii : (bytes : List ℕ) → is_ascii (hexdigest bytes) ≡ true
unfolding hexdigest
hexdigest-is_ascii [] = refl
hexdigest-is_ascii (b ∷ bs) = rw (
  pick-holds is_ascii_char "0123456789abcdef" (b / 16) refl refl,
  pick-holds is_ascii_char "0123456789abcdef" (b % 16) refl refl,
  hexdigest-is_ascii bs,
)

-- `rstrip` drops nothing before a character that it does not strip.
pub rstrip-is_truthy :
    (c d : Char) (s : String)
    → (code d == code c) ≡ false
    → is_truthy (rstrip c (String.◌∷◌ d s)) ≡ true
unfolding rstrip
rstrip-is_truthy c d s h = ground arith

is_not_padding : Char → Bool
is_not_padding c = not (code c == code "=")

alphabet_no_padding : (n : ℕ) → (code (pick alphabet n) == code "=") ≡ false
unfolding is_not_padding
alphabet_no_padding n = ground (arith, pick-holds is_not_padding alphabet n refl refl)

-- A token from at least one random byte is not empty.
pub token_urlsafe-is_truthy :
    (b : ℕ) (bytes : List ℕ) → is_truthy (token_urlsafe (b ∷ bytes)) ≡ true
unfolding token_urlsafe
token_urlsafe-is_truthy a [] = search (rstrip-is_truthy, alphabet_no_padding)
token_urlsafe-is_truthy a (b ∷ []) = search (rstrip-is_truthy, alphabet_no_padding)
token_urlsafe-is_truthy a (b ∷ c ∷ rest) = search (rstrip-is_truthy, alphabet_no_padding)

abbrev lower_char : Char → Char
lower_char c =
    if leb 65 (code c) && leb (code c) 90
    then pick "abcdefghijklmnopqrstuvwxyz" (code c - 65)
    else c

-- `s.lower()`, on ASCII. Other characters are left: a text that has one is lowered to none of the
-- texts that the source compares the result with.
unfoldable pub lower : String → String
lower String.[] = ""
lower (String.◌∷◌ c s) = String.◌∷◌ (lower_char c) (lower s)

-- `s.startswith(prefix)`
unfoldable pub starts_with : String → String → Bool
starts_with String.[] s = true
starts_with (String.◌∷◌ c p) String.[] = false
starts_with (String.◌∷◌ c p) (String.◌∷◌ d s) = code c == code d && starts_with p s

-- `s.replace(c, new)` for a single character
unfoldable pub replace_char : Char → String → String → String
replace_char c new String.[] = ""
replace_char c new (String.◌∷◌ d s) =
    (if code d == code c then new else String.◌∷◌ d "") <> replace_char c new s

-- `s.lstrip(c)` for a single character
unfoldable pub lstrip : Char → String → String
lstrip c String.[] = ""
lstrip c (String.◌∷◌ d s) = if code d == code c then lstrip c s else String.◌∷◌ d s

-- `s[:n]`
unfoldable pub take_chars : ℕ → String → String
take_chars zero s = ""
take_chars (suc n) String.[] = ""
take_chars (suc n) (String.◌∷◌ c s) = String.◌∷◌ c (take_chars n s)
