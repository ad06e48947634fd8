-- ===== src/Adapters/Address.antt =====
-- `parseExchangeUrl` and `parseFeedUrl`: the host and the port of a URL
-- (src/adapters/OrderManagementAdapter.cpp, src/adapters/MarketDataFeedAdapter.cpp).
use challenge_8a2ffd.Common.{
  ℕ, ◌^◌, ◌<◌, ◌≡◌, ◌≢◌, refl, ap, ◌∙◌, false, ◌&&◌, Option, none, some, [], ◌∷◌, ◌++◌, arith,
  if◌then◌else◌, ◌==◌, All, All-map,
}
use challenge_8a2ffd.Common.Int.{ℤ, pos}
use challenge_8a2ffd.Sharding.Hash.{Bytes, to_string}
use challenge_8a2ffd.Texts.{bytes}
use challenge_8a2ffd.Texts.Numbers.{IsDigit, stoi, stoi-to_string, to_string-IsDigit}

after_slashes : Bytes → Option Bytes
after_slashes (b ∷ c ∷ rest) = if b == 47 && c == 47 then some rest else none
after_slashes _ = none

abbrev at_colon : ℕ → Option Bytes → Option Bytes → Option Bytes
at_colon a none later = later
at_colon a (some rest) later = if a == 58 then some rest else later

-- What follows the first "://", if there is one.
unfoldable pub after_protocol : Bytes → Option Bytes
unfolding after_slashes
after_protocol [] = none
after_protocol (a ∷ bytes) = at_colon a (after_slashes bytes) (after_protocol bytes)

abbrev or_whole : Bytes → Option Bytes → Bytes
or_whole url none = url
or_whole url (some rest) = rest

unfoldable pub stripped_url : Bytes → Bytes
stripped_url url = or_whole url (after_protocol url)

-- The text before the last ':' and the text after it.
unfoldable pub split_last_colon : Bytes → Option (Bytes × Bytes)
split_last_colon [] = none
split_last_colon (b ∷ bytes) = elim (split_last_colon bytes) [
  | some parts ↦ some (b ∷ parts.0, parts.1)
  | none ↦ if b == 58 then some ([], bytes) else none
]

abbrev or_default : ℤ → Option ℤ → ℤ
or_default port none = port
or_default port (some n) = n

abbrev address : ℤ → Bytes → Option (Bytes × Bytes) → Bytes × ℤ
address default_port whole none = (whole, default_port)
address default_port whole (some parts) = (parts.0, or_default default_port (stoi parts.1))

-- A port that is no number is the default.
unfoldable pub parse_url : ℤ → Bytes → Bytes × ℤ
parse_url default_port url =
    address default_port (stripped_url url) (split_last_colon (stripped_url url))

abbrev pub default_exchange_port : ℤ
default_exchange_port = pos 8080

abbrev pub parse_exchange_url : Bytes → Bytes × ℤ
parse_exchange_url url = parse_url default_exchange_port url

-- Without a colon.
abbrev pub HasNoColon : Bytes → Type 0
HasNoColon bytes = All (λ b. b ≢ 58) bytes

split_last_colon-none : (t : Bytes) → HasNoColon t → split_last_colon t ≡ none
unfolding split_last_colon
split_last_colon-none [] h = refl
split_last_colon-none (b ∷ t) (p, ps) =
    let other : (b == 58) ≡ false = ground arith in rw (split_last_colon-none t ps) (rw other refl)

split_last_colon-append :
    (host port : Bytes)
    → HasNoColon port
    → split_last_colon (host ++ (58 ∷ port)) ≡ some (host, port)
unfolding split_last_colon
split_last_colon-append [] port h = rw (split_last_colon-none port h) refl
split_last_colon-append (b ∷ host) port h = rw (split_last_colon-append host port h) refl

at_colon-other : (a : ℕ) (o later : Option Bytes) → a ≢ 58 → at_colon a o later ≡ later
at_colon-other a none later h = refl
at_colon-other a (some rest) later h = ground arith

after_protocol-append :
    (protocol rest : Bytes)
    → HasNoColon protocol
    → after_protocol (protocol ++ (58 ∷ 47 ∷ 47 ∷ rest)) ≡ some rest
unfolding after_protocol
after_protocol-append [] rest h = refl
after_protocol-append (a ∷ protocol) rest (p, ps) =
    at_colon-other a (after_slashes (protocol ++ (58 ∷ 47 ∷ 47 ∷ rest)))
      (after_protocol (protocol ++ (58 ∷ 47 ∷ 47 ∷ rest))) p
    ∙ after_protocol-append protocol rest ps

not_colon : (c : ℕ) → IsDigit c → c ≢ 58
not_colon c (low, high) = omega arith

to_string-HasNoColon : (n : ℕ) → HasNoColon (to_string n)
to_string-HasNoColon n = All-map IsDigit (λ c. c ≢ 58) not_colon (to_string n) (to_string-IsDigit n)

-- The address that is written as protocol, host and port is read back, whatever the host's bytes.
pub parse_url-written :
    (default_port : ℤ) (protocol host : Bytes) (port : ℕ)
    → HasNoColon protocol
    → port < 2 ^ 31
    → parse_url default_port (protocol ++ (58 ∷ 47 ∷ 47 ∷ (host ++ (58 ∷ to_string port))))
      ≡ (host, pos port)
unfolding parse_url stripped_url
parse_url-written default_port protocol host port h small =
    let whole : Bytes = protocol ++ (58 ∷ 47 ∷ 47 ∷ (host ++ (58 ∷ to_string port))) in
    let stripped =
      ap (or_whole whole) (after_protocol-append protocol (host ++ (58 ∷ to_string port)) h) in
    let parts = split_last_colon-append host (to_string port) (to_string-HasNoColon port) in
    ap (λ t. address default_port t (split_last_colon t)) stripped
    ∙ ap (address default_port (host ++ (58 ∷ to_string port))) parts
    ∙ ap (λ o. (host, or_default default_port o)) (stoi-to_string port small)
