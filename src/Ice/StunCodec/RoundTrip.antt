-- ===== src/Ice/StunCodec/RoundTrip.antt =====
-- The parser on the messages that the builder makes, and on messages that it does not survive
-- (stun_codec.rs).
use p2psdk.Prelude.{
  ℕ, ◌/◌, ◌%◌, ◌^◌, ◌<◌, ◌≡◌, refl, ap, ◌∙◌, ◌≢◌, Bool, true, false, Option, none, some, List, [],
  ◌∷◌, ◌++◌, arith, ltb, if◌then◌else◌, length, All, ret, ◌>>=◌,
}
use mathlib.Core.List.{foldl}
use p2psdk.Constants.{
  attr_fingerprint, attr_xor_mapped_address, attr_priority, attr_ice_controlling,
  attr_ice_controlled, attr_username, stun_binding_request,
}
use p2psdk.Crypto.{Crypto, stun_fingerprint}
use p2psdk.Ice.StunCodec.{
  ParsedStunMessage, default_message, request_attrs_len, build_ice_binding_request,
  parse_ice_stun_message, classify,
}
use p2psdk.Ice.StunCodec.Build.{
  attribute, role_attributes, candidate_attributes, integrity_attributes, fingerprint_attribute,
  request_attributes, build_ice_binding_request_lem, attributes_size-append,
  attributes_size-candidate, attributes_size-integrity,
}
use p2psdk.Ice.StunCodec.Parse.{Plain, absorb, word_of, parse_ice_stun_message-absorb}
use p2psdk.Stun.Builder.Laws.{header, zeros, attributes_size, length-encode_attributes}
use p2psdk.Stun.Walk.Attributes.{Attribute, encode_attributes}
use p2psdk.Text.Utf8.{from_utf8_lossy}
use p2psdk.Wire.{Bytes, u16, be16, be32}
use p2psdk.Wire.Laws.{length-be32}

foldl-append :
    (r : ParsedStunMessage) (xs ys : List Attribute)
    → foldl absorb r (xs ++ ys) ≡ foldl absorb (foldl absorb r xs) ys
foldl-append r [] ys = refl
foldl-append r (x ∷ xs) ys = foldl-append (absorb r x) xs ys

Plain-append : (xs ys : List Attribute) → All Plain xs → All Plain ys → All Plain (xs ++ ys)
Plain-append [] ys h k = k
Plain-append (x ∷ xs) ys h k = (h.0, Plain-append xs ys h.1 k)

word_of-be32 : (v : ℕ) → v < 2 ^ 32 → word_of (be32 v) ≡ v
unfolding be32
word_of-be32 v h = omega arith

-- What the receiver of a request reads in it.
abbrev pub request_reading : Bytes → Bytes → ℕ → Bool → Bool → ParsedStunMessage
request_reading tid username priority controlling use_candidate = record default_message {
  is_stun = true;
  is_request = true;
  transaction_id = tid;
  username = username;
  priority = priority;
  controlling = some controlling;
  use_candidate = use_candidate;
}

abbrev request_started : Bytes → ParsedStunMessage
request_started tid = record default_message {
  is_stun = true;
  is_request = true;
  transaction_id = tid;
}

absorb_username :
    (r : ParsedStunMessage) (username : Bytes)
    → 0 < length username
    → from_utf8_lossy username ≡ username
    → absorb r (attribute attr_username username) ≡ record r { username = username }
absorb_username r username named text =
    let long : ltb 0 (length username) ≡ true = ground arith in rw (long, text)

absorb_priority :
    (r : ParsedStunMessage) (priority : ℕ)
    → priority < 2 ^ 32
    → absorb r (attribute attr_priority (be32 priority)) ≡ record r { priority = priority }
absorb_priority r priority small =
    rw (length-be32 priority) (ap (λ p. record r { priority = p }) (word_of-be32 priority small))

absorb_role :
    (r : ParsedStunMessage) (controlling : Bool) (a b : ℕ)
    → absorb r (
        attribute
          (if controlling then attr_ice_controlling else attr_ice_controlled)
          (be32 a ++ be32 b))
      ≡ record r { controlling = some controlling }
unfolding be32
absorb_role r true a b = refl
absorb_role r false a b = refl

absorb_candidate :
    (r : ParsedStunMessage) (use_candidate : Bool)
    → r.use_candidate ≡ false
    → foldl absorb r (candidate_attributes use_candidate)
      ≡ record r { use_candidate = use_candidate }
absorb_candidate r true h = refl
absorb_candidate r false h = λ i. record r { use_candidate = h i }

absorb_integrity :
    (crypto : Crypto) (tid : Bytes) (r : ParsedStunMessage) (as' : List Attribute)
    (remote_pwd : Option Bytes)
    → foldl absorb r (integrity_attributes crypto tid as' remote_pwd) ≡ r
absorb_integrity crypto tid r as' none = refl
absorb_integrity crypto tid r as' (some pwd) = refl

length-pair : (a b : ℕ) → length (be32 a ++ be32 b) ≡ 8
unfolding be32
length-pair a b = refl

Plain-word : (t v : ℕ) → t < 2 ^ 16 → t ≢ attr_xor_mapped_address → Plain (attribute t (be32 v))
Plain-word t v h k = ((h, omega (arith, length-be32 v)), k)

Plain-role :
    (username : Bytes) (priority : ℕ) (controlling : Bool) (tie_breaker : ℕ)
    → length username < 65000
    → All Plain (role_attributes username priority controlling tie_breaker)
Plain-role username priority true tie_breaker short = (
  ((omega arith, omega arith), λ e. omega arith),
  (
    Plain-word attr_priority priority (omega arith) (λ e. omega arith),
    (
      (
        (omega arith, omega (arith, length-pair (tie_breaker / 2 ^ 32) (tie_breaker % 2 ^ 32))),
        λ e. omega arith,
      ),
      tt,
    ),
  ),
)
Plain-role username priority false tie_breaker short = (
  ((omega arith, omega arith), λ e. omega arith),
  (
    Plain-word attr_priority priority (omega arith) (λ e. omega arith),
    (
      (
        (omega arith, omega (arith, length-pair (tie_breaker / 2 ^ 32) (tie_breaker % 2 ^ 32))),
        λ e. omega arith,
      ),
      tt,
    ),
  ),
)

Plain-candidate : (use_candidate : Bool) → All Plain (candidate_attributes use_candidate)
Plain-candidate true = (((omega arith, omega arith), λ e. omega arith), tt)
Plain-candidate false = tt

Plain-integrity :
    (crypto : Crypto) (tid : Bytes) (as' : List Attribute) (remote_pwd : Option Bytes)
    → All Plain (integrity_attributes crypto tid as' remote_pwd)
Plain-integrity crypto tid as' none = tt
Plain-integrity crypto tid as' (some pwd) =
    (((omega arith, rw (crypto.length-hmac_sha1 pwd _) (omega arith)), λ e. omega arith), tt)

request_attrs_len-lt :
    (username : Bytes) (use_candidate : Bool) (remote_pwd : Option Bytes)
    → length username < 65000
    → request_attrs_len username use_candidate remote_pwd < 2 ^ 16
request_attrs_len-lt username true none h = omega arith
request_attrs_len-lt username false none h = omega arith
request_attrs_len-lt username true (some pwd) h = omega arith
request_attrs_len-lt username false (some pwd) h = omega arith

module _ (crypto : Crypto) (tid username : Bytes) (priority : ℕ) (controlling : Bool)
    (tie_breaker : ℕ) (use_candidate : Bool) (remote_pwd : Option Bytes) where
  abbrev attrs : List Attribute
  attrs =
      request_attributes crypto tid username priority controlling tie_breaker use_candidate
        remote_pwd

  role_reading :
      0 < length username
      → from_utf8_lossy username ≡ username
      → priority < 2 ^ 32
      → foldl absorb
          (request_started tid)
          (role_attributes username priority controlling tie_breaker)
        ≡ request_reading tid username priority controlling false
  role_reading named text small =
      let prio = attribute attr_priority (be32 priority) in
      let role =
        attribute (if controlling then attr_ice_controlling else attr_ice_controlled)
          (be32 (tie_breaker / 2 ^ 32) ++ be32 (tie_breaker % 2 ^ 32)) in
      ap (λ r. absorb (absorb r prio) role)
        (absorb_username (request_started tid) username named text)
      ∙ ap (λ r. absorb r role) (absorb_priority _ priority small)
      ∙ absorb_role _ controlling (tie_breaker / 2 ^ 32) (tie_breaker % 2 ^ 32)

  abbrev plain : List Attribute
  plain =
      role_attributes username priority controlling tie_breaker
      ++ candidate_attributes use_candidate

  abbrev signed : List Attribute
  signed = plain ++ integrity_attributes crypto tid plain remote_pwd

  abbrev fingerprint : Attribute
  fingerprint =
      fingerprint_attribute crypto tid (u16 (request_attrs_len username use_candidate remote_pwd))
        signed

  size :
      length tid ≡ 12 → attributes_size attrs ≡ request_attrs_len username use_candidate remote_pwd
  size twelve = omega (
    arith,
    attributes_size-append crypto tid twelve signed (fingerprint ∷ []),
    attributes_size-integrity crypto tid twelve plain remote_pwd,
    attributes_size-candidate crypto tid twelve
        (role_attributes username priority controlling tie_breaker) use_candidate,
    length-be32 priority,
    length-pair (tie_breaker / 2 ^ 32) (tie_breaker % 2 ^ 32),
    length-be32 (
        stun_fingerprint crypto (
          ((header stun_binding_request (u16 (request_attrs_len username use_candidate remote_pwd))
                tid
              ++ encode_attributes signed)
            ++ (be16 0x8028 ++ be16 4))
          ++ zeros 4)),
  )

  All-Plain : length username < 65000 → All Plain attrs
  All-Plain short =
      Plain-append signed (fingerprint ∷ [])
        (Plain-append plain (integrity_attributes crypto tid plain remote_pwd)
          (Plain-append (role_attributes username priority controlling tie_breaker)
            (candidate_attributes use_candidate)
            (Plain-role username priority controlling tie_breaker short)
            (Plain-candidate use_candidate))
          (Plain-integrity crypto tid plain remote_pwd))
        (Plain-word attr_fingerprint _ (omega arith) (λ e. omega arith), tt)

  reading :
      0 < length username
      → from_utf8_lossy username ≡ username
      → priority < 2 ^ 32
      → foldl absorb (request_started tid) attrs
        ≡ request_reading tid username priority controlling use_candidate
  reading named text small =
      foldl-append (request_started tid) signed (fingerprint ∷ [])
      ∙ foldl-append (request_started tid) plain (integrity_attributes crypto tid plain remote_pwd)
      ∙ absorb_integrity crypto tid (foldl absorb (request_started tid) plain) plain remote_pwd
      ∙ foldl-append (request_started tid)
          (role_attributes username priority controlling tie_breaker)
          (candidate_attributes use_candidate)
      ∙ ap (λ r. foldl absorb r (candidate_attributes use_candidate))
          (role_reading named text small)
      ∙ absorb_candidate _ use_candidate refl

  -- A request is read back as what it was built from: the transaction ID, the user name, the
  -- priority, the role and the USE-CANDIDATE flag.
  pub parse_ice_stun_message-build_ice_binding_request :
      length tid ≡ 12
      → 0 < length username
      → length username < 65000
      → from_utf8_lossy username ≡ username
      → priority < 2 ^ 32
      → (build_ice_binding_request crypto tid username priority controlling tie_breaker
            use_candidate remote_pwd
          >>= λ r. parse_ice_stun_message r.bytes)
        ≡ ret (request_reading tid username priority controlling use_candidate)
  parse_ice_stun_message-build_ice_binding_request twelve named short text small =
      let len = request_attrs_len username use_candidate remote_pwd in
      let total : length (encode_attributes attrs) ≡ len =
        length-encode_attributes attrs ∙ size twelve in
      let fits : u16 len ≡ length (encode_attributes attrs) =
        omega (arith, total, request_attrs_len-lt username use_candidate remote_pwd short) in
      rw
        (build_ice_binding_request_lem crypto tid twelve username priority controlling tie_breaker
          use_candidate remote_pwd)
        (ap
            (λ n.
              parse_ice_stun_message (header stun_binding_request n tid ++ encode_attributes attrs))
            fits
          ∙ parse_ice_stun_message-absorb stun_binding_request tid attrs (request_started tid)
              (omega arith) (unfold classify in refl) twelve (omega arith) (All-Plain short)
          ∙ ap ret (reading named text small))
