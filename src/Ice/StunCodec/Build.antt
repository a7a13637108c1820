-- ===== src/Ice/StunCodec/Build.antt =====
-- What the functions that build a connectivity check write (stun_codec.rs): they never panic, and
-- their bytes are a header and a list of attributes.
use p2psdk.Prelude.{
  ℕ, ◌+◌, ◌-◌, ◌/◌, ◌%◌, ◌^◌, ◌≡◌, refl, ap, ◌∙◌, Bool, true, false, Option, none, some, List, [],
  ◌∷◌, ◌++◌, append_assoc, append-nil, arith, if◌then◌else◌, length, length-append, ret,
}
use p2psdk.Constants.{
  attr_username, attr_priority, attr_use_candidate, attr_ice_controlling, attr_ice_controlled,
  attr_message_integrity, attr_fingerprint, stun_binding_request,
}
use p2psdk.Crypto.{Crypto, stun_fingerprint}
use p2psdk.Ice.StunCodec.{
  mi_attr_len, use_candidate_len, request_attrs_len, sign, add_fingerprint,
  build_ice_binding_request,
}
use p2psdk.Stun.Builder.{write_attribute}
use p2psdk.Stun.Builder.Laws.{
  zeros, header, length-header, start_message, write_attribute_header_lem, finish_attribute,
  set_length, slice-front, slice-all, attributes_size, length-header_attributes, regroup_attribute,
  append_attribute,
}
use p2psdk.Stun.Codec.{pad_to_4}
use p2psdk.Stun.Walk.Attributes.{Attribute, encode_attribute, encode_attributes}
use p2psdk.Wire.{Bytes, u16, be16, be32, write_u32}
use p2psdk.Wire.Laws.{length-be16, length-be32}

abbrev pub attribute : ℕ → Bytes → Attribute
attribute t v = record { attr_type = t; value = v }

module _ (crypto : Crypto) where
  sign_lem :
      (t l : ℕ) (tid body pwd : Bytes) (n m off : ℕ)
      → off ≡ length (header t (u16 l) tid ++ body)
      → n ≡ 24 + m
      → sign crypto ((header t (u16 l) tid ++ body) ++ zeros n) off l (some pwd)
        ≡ ret (
            ((header t (u16 l) tid ++ body)
              ++ encode_attribute (
                  attribute attr_message_integrity
                    (crypto.hmac_sha1 pwd (header t (u16 (off - 20 + 24)) tid ++ body))))
            ++ zeros m)
  unfolding sign
  sign_lem t l tid body pwd n m off e h =
      let l' = u16 (off - 20 + 24) in
      let mac = crypto.hmac_sha1 pwd (header t l' tid ++ body) in
      let size : length mac ≡ 20 = crypto.length-hmac_sha1 pwd (header t l' tid ++ body) in
      let head = be16 attr_message_integrity ++ be16 20 in
      let mi = encode_attribute (attribute attr_message_integrity mac) in
      rw (
        write_attribute_header_lem (header t (u16 l) tid ++ body) attr_message_integrity 20 n
            (20 + m) off e (omega arith),
        append_assoc (header t (u16 l) tid ++ body) head (zeros (20 + m)),
        append_assoc (header t (u16 l) tid) body (head ++ zeros (20 + m)),
        set_length t (u16 l) l' tid (body ++ (head ++ zeros (20 + m))),
        ← append_assoc (header t l' tid) body (head ++ zeros (20 + m)),
        slice-front (header t l' tid ++ body) (head ++ zeros (20 + m)) off (
            omega (
              arith,
              length-append (header t (u16 l) tid) body,
              length-append (header t l' tid) body,
              length-header t (u16 l) tid,
              length-header t l' tid,
            )),
        ← append_assoc (header t l' tid ++ body) head (zeros (20 + m)),
        rw size at (
            finish_attribute (header t l' tid ++ body) attr_message_integrity mac (20 + m) m off
              (omega (
                arith,
                length-append (header t (u16 l) tid) body,
                length-append (header t l' tid) body,
                length-header t (u16 l) tid,
                length-header t l' tid,
              ))
              (omega arith)),
        append_assoc (header t l' tid ++ body) mi (zeros m),
        append_assoc (header t l' tid) body (mi ++ zeros m),
        set_length t l' (u16 l) tid (body ++ (mi ++ zeros m)),
        ← append_assoc (header t (u16 l) tid) body (mi ++ zeros m),
        ← append_assoc (header t (u16 l) tid ++ body) mi (zeros m),
      )

  add_fingerprint_lem :
      (front : Bytes) (off total : ℕ)
      → off ≡ length front
      → total ≡ length front + 8
      → add_fingerprint crypto (front ++ zeros 8) off total
        ≡ ret (
            front
            ++ encode_attribute (
                attribute attr_fingerprint (
                  be32 (
                    stun_fingerprint crypto
                      ((front ++ (be16 attr_fingerprint ++ be16 4)) ++ zeros 4)))))
  unfolding add_fingerprint write_u32
  add_fingerprint_lem front off total e h =
      let head = be16 attr_fingerprint ++ be16 4 in
      let fp = stun_fingerprint crypto ((front ++ head) ++ zeros 4) in
      rw
        (
          write_attribute_header_lem front attr_fingerprint 4 8 4 off e refl,
          slice-all ((front ++ head) ++ zeros 4) total (
              omega (
                arith,
                length-append (front ++ head) (zeros 4),
                length-append front head,
                length-append (be16 attr_fingerprint) (be16 4),
                length-be16 attr_fingerprint,
                length-be16 4,
              )),
        )
        (rw (length-be32 fp) at (
            finish_attribute front attr_fingerprint (be32 fp) 4 0 off e
              (omega (arith, length-be32 fp)))
          ∙ ap ret (append-nil (front ++ encode_attribute (attribute attr_fingerprint (be32 fp)))))

-- The attributes of a request in the order of the source, up to the role.
abbrev pub role_attributes : Bytes → ℕ → Bool → ℕ → List Attribute
role_attributes username priority controlling tie_breaker =
    attribute attr_username username
    ∷ attribute attr_priority (be32 priority)
    ∷ attribute (if controlling then attr_ice_controlling else attr_ice_controlled)
        (be32 (tie_breaker / 2 ^ 32) ++ be32 (tie_breaker % 2 ^ 32))
    ∷ []

abbrev pub candidate_attributes : Bool → List Attribute
candidate_attributes use_candidate =
    if use_candidate then attribute attr_use_candidate [] ∷ [] else []

-- The HMAC covers a header whose length counts up to this attribute, and the attributes before it.
abbrev pub integrity_attributes : Crypto → Bytes → List Attribute → Option Bytes → List Attribute
integrity_attributes crypto tid as' none = []
integrity_attributes crypto tid as' (some pwd) =
    attribute attr_message_integrity (
      crypto.hmac_sha1 pwd
        (header stun_binding_request (u16 (attributes_size as' + 24)) tid ++ encode_attributes as'))
    ∷ []

module _ (crypto : Crypto) (tid : Bytes) (len : ℕ) where
  -- The checksum covers the final header, the attributes, and this attribute with value 0.
  abbrev pub fingerprint_attribute : List Attribute → Attribute
  fingerprint_attribute as' = attribute attr_fingerprint (
      be32 (
        stun_fingerprint crypto (
          ((header stun_binding_request len tid ++ encode_attributes as')
            ++ (be16 attr_fingerprint ++ be16 4))
          ++ zeros 4)))

abbrev pub request_attributes :
    Crypto → Bytes → Bytes → ℕ → Bool → ℕ → Bool → Option Bytes → List Attribute
request_attributes crypto tid username priority controlling tie_breaker use_candidate remote_pwd =
    let len = u16 (request_attrs_len username use_candidate remote_pwd) in
    let plain =
      role_attributes username priority controlling tie_breaker
      ++ candidate_attributes use_candidate in
    let signed = plain ++ integrity_attributes crypto tid plain remote_pwd in
    signed ++ (fingerprint_attribute crypto tid len signed ∷ [])

module _ (crypto : Crypto) (tid : Bytes) (twelve : length tid ≡ 12) where
  sign_attributes :
      (as' : List Attribute) (l n m off : ℕ) (remote_pwd : Option Bytes)
      → off ≡ 20 + attributes_size as'
      → n ≡ mi_attr_len remote_pwd + m
      → sign crypto
          ((header stun_binding_request (u16 l) tid ++ encode_attributes as') ++ zeros n)
          off
          l
          remote_pwd
        ≡ ret (
            (header stun_binding_request (u16 l) tid
              ++ encode_attributes (as' ++ integrity_attributes crypto tid as' remote_pwd))
            ++ zeros m)
  sign_attributes as' l n m off none e h =
      let same : n ≡ m = omega arith in unfold sign in rw (append-nil as', same)
  sign_attributes as' l n m off (some pwd) e h =
      let covered : off - 20 + 24 ≡ attributes_size as' + 24 = omega arith in
      let whole = length-header_attributes stun_binding_request (u16 l) tid as' in
      rw covered at (
        sign_lem crypto stun_binding_request l tid (encode_attributes as') pwd n m off (omega arith)
          (omega arith))
      ∙ ap (λ x. ret (x ++ zeros m))
          (regroup_attribute stun_binding_request (u16 l) tid as' (
            attribute attr_message_integrity (
              crypto.hmac_sha1 pwd (
                header stun_binding_request (u16 (attributes_size as' + 24)) tid
                ++ encode_attributes as'))))

  fingerprint_attributes :
      (as' : List Attribute) (len off total : ℕ)
      → off ≡ 20 + attributes_size as'
      → total ≡ 28 + attributes_size as'
      → add_fingerprint crypto
          ((header stun_binding_request len tid ++ encode_attributes as') ++ zeros 8)
          off
          total
        ≡ ret (
            header stun_binding_request len tid
            ++ encode_attributes (as' ++ (fingerprint_attribute crypto tid len as' ∷ [])))
  fingerprint_attributes as' len off total e h =
      let whole = length-header_attributes stun_binding_request len tid as' in
      add_fingerprint_lem crypto (header stun_binding_request len tid ++ encode_attributes as') off
        total (omega arith) (omega arith)
      ∙ ap ret (
          regroup_attribute stun_binding_request len tid as'
            (fingerprint_attribute crypto tid len as'))

  write_candidate :
      (len : ℕ) (as' : List Attribute) (n m off : ℕ) (use_candidate : Bool)
      → off ≡ 20 + attributes_size as'
      → n ≡ use_candidate_len use_candidate + m
      → (if use_candidate
          then write_attribute
              ((header stun_binding_request len tid ++ encode_attributes as') ++ zeros n)
              off
              attr_use_candidate
              []
          else ret ((header stun_binding_request len tid ++ encode_attributes as') ++ zeros n))
        ≡ ret (
            (header stun_binding_request len tid
              ++ encode_attributes (as' ++ candidate_attributes use_candidate))
            ++ zeros m)
  write_candidate len as' n m off true e h =
      append_attribute stun_binding_request len tid as' attr_use_candidate [] n m off (omega arith)
        (omega arith)
  write_candidate len as' n m off false e h =
      let same : n ≡ m = omega arith in rw (append-nil as', same)

  pub attributes_size-append :
      (xs ys : List Attribute)
      → attributes_size (xs ++ ys) ≡ attributes_size xs + attributes_size ys
  attributes_size-append [] ys = omega arith
  attributes_size-append (x ∷ xs) ys = omega (arith, attributes_size-append xs ys)

  pub attributes_size-candidate :
      (as' : List Attribute) (use_candidate : Bool)
      → attributes_size (as' ++ candidate_attributes use_candidate)
        ≡ attributes_size as' + use_candidate_len use_candidate
  attributes_size-candidate as' true =
      omega (arith, attributes_size-append as' (candidate_attributes true))
  attributes_size-candidate as' false =
      omega (arith, attributes_size-append as' (candidate_attributes false))

  pub attributes_size-integrity :
      (as' : List Attribute) (remote_pwd : Option Bytes)
      → attributes_size (as' ++ integrity_attributes crypto tid as' remote_pwd)
        ≡ attributes_size as' + mi_attr_len remote_pwd
  attributes_size-integrity as' none = omega (arith, attributes_size-append as' [])
  attributes_size-integrity as' (some pwd) = omega (
    arith,
    attributes_size-append as' (integrity_attributes crypto tid as' (some pwd)),
    crypto.length-hmac_sha1 pwd
        (header stun_binding_request (u16 (attributes_size as' + 24)) tid ++ encode_attributes as'),
  )

  -- The bytes of a connectivity check: the header with the length of all attributes, then USERNAME,
  -- PRIORITY, the role with the tie-breaker, USE-CANDIDATE if it is asked for, MESSAGE-INTEGRITY if
  -- there is a password, and FINGERPRINT. Building it never panics.
  pub build_ice_binding_request_lem :
      (username : Bytes) (priority : ℕ) (controlling : Bool) (tie_breaker : ℕ)
      (use_candidate : Bool) (remote_pwd : Option Bytes)
      → build_ice_binding_request crypto tid username priority controlling tie_breaker use_candidate
          remote_pwd
        ≡ ret (record {
          bytes =
              header stun_binding_request
                (u16 (request_attrs_len username use_candidate remote_pwd))
                tid
              ++ encode_attributes (
                  request_attributes crypto tid username priority controlling tie_breaker
                    use_candidate remote_pwd);
          transaction_id = tid;
        })
  unfolding build_ice_binding_request
  build_ice_binding_request_lem username priority controlling tie_breaker use_candidate remote_pwd =
      let l = request_attrs_len username use_candidate remote_pwd in
      let t = stun_binding_request in
      let tail = use_candidate_len use_candidate + mi_attr_len remote_pwd + 8 in
      let role = if controlling then attr_ice_controlling else attr_ice_controlled in
      let tie = be32 (tie_breaker / 2 ^ 32) ++ be32 (tie_breaker % 2 ^ 32) in
      let four = length-be32 priority in
      let eight : length tie ≡ 8 = omega (
        arith,
        length-append (be32 (tie_breaker / 2 ^ 32)) (be32 (tie_breaker % 2 ^ 32)),
        length-be32 (tie_breaker / 2 ^ 32),
        length-be32 (tie_breaker % 2 ^ 32),
      ) in
      let name = attribute attr_username username in
      let prio = attribute attr_priority (be32 priority) in
      let plain = name ∷ prio ∷ attribute role tie ∷ [] in
      let full = plain ++ candidate_attributes use_candidate in
      let signed = full ++ integrity_attributes crypto tid full remote_pwd in
      let offset₃ = 20 + pad_to_4 (4 + length username) + pad_to_4 (4 + 4) + pad_to_4 (4 + 8) in
      let sized = attributes_size-candidate plain use_candidate in
      let sized' = attributes_size-integrity full remote_pwd in
      rw (
        start_message t (u16 l) l tid twelve,
        append_attribute t (u16 l) tid [] attr_username username l (20 + tail) 20 (omega arith)
            (omega arith),
        append_attribute t (u16 l) tid (name ∷ []) attr_priority (be32 priority) (20 + tail)
            (12 + tail) (20 + pad_to_4 (4 + length username)) (omega arith) (omega arith),
        append_attribute t (u16 l) tid (name ∷ prio ∷ []) role tie (12 + tail) tail
            (20 + pad_to_4 (4 + length username) + pad_to_4 (4 + 4)) (omega arith) (omega arith),
        write_candidate (u16 l) plain tail (mi_attr_len remote_pwd + 8) offset₃ use_candidate
            (omega arith) (omega arith),
        sign_attributes full l (mi_attr_len remote_pwd + 8) 8
            (offset₃ + use_candidate_len use_candidate) remote_pwd (omega arith) refl,
        fingerprint_attributes signed (u16 l)
            (offset₃ + use_candidate_len use_candidate + mi_attr_len remote_pwd) (20 + l)
            (omega arith) (omega arith),
      )
