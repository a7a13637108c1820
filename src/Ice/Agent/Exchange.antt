-- ===== src/Ice/Agent/Exchange.antt =====
-- sdk/crates/p2p-core/src/ice/agent.rs: a connectivity check from one agent to the other and back.
use p2psdk.Prelude.{
  ℕ, ◌^◌, ◌<◌, ◌≡◌, refl, sym, ap, ◌∙◌, ◌≢◌, inl, inr, Bool, true, false, ◌&&◌, Option, none, some,
  List, [], ◌∷◌, ◌++◌, append-nil, arith, if◌then◌else◌, ltb-false, Bool-cases, length, All,
  length-append, Outcome, ret, ◌>>=◌,
}
use p2psdk.Constants.{stun_binding_request, stun_binding_success}
use p2psdk.Crypto.{Crypto}
use p2psdk.Ice.Agent.{IceAgent, HandleDataResult, set_state}
use p2psdk.Ice.Agent.Incoming.{
  resolve_conflict, mark_pair, succeed, succeed_nominated, confirm, is_early, connect_if, respond,
  handle_incoming_stun, handle_incoming_data,
}
use p2psdk.Ice.Agent.Usernames.{accepts_username_iff}
use p2psdk.Ice.CheckList.{find_pair_by_remote}
use p2psdk.Ice.Agent.FirstPair.{EndsAt, modify_at-first, find_pair_by_remote-first}
use p2psdk.Types.{CandidatePair, CheckState, IceRole, IceState, is_controlling}
use p2psdk.Ice.StunCodec.{
  ParsedStunMessage, default_message, build_ice_binding_request, build_ice_binding_response,
  parse_ice_stun_message, request_attrs_len, classify,
}
use p2psdk.Ice.StunCodec.Build.{request_attributes, build_ice_binding_request_lem}
use p2psdk.Ice.StunCodec.Parse.{parse_ice_stun_message-absorb}
use p2psdk.Ice.StunCodec.RoundTrip.{parse_ice_stun_message-build_ice_binding_request}
use p2psdk.Stun.Builder.Fields.{length-message, first_byte, type_field, tid_field}
use p2psdk.Stun.Builder.Laws.{header, write_stun_header_lem}
use p2psdk.Stun.Walk.Attributes.{encode_attributes}
use p2psdk.Text.Utf8.{from_utf8_lossy}
use p2psdk.Wire.{Bytes, u16}

-- A Binding Request is answered by a Binding Success with no attributes.
build_ice_binding_response_lem :
    (len : ℕ) (tid rest : Bytes)
    → length tid ≡ 12
    → build_ice_binding_response (header stun_binding_request len tid ++ rest)
      ≡ ret (some (header stun_binding_success 0 tid))
unfolding build_ice_binding_response
build_ice_binding_response_lem len tid rest twelve = rw (
  ltb-false (length (header stun_binding_request len tid ++ rest)) 20
      (omega (arith, length-message stun_binding_request len tid rest twelve)),
  first_byte stun_binding_request len tid rest,
  type_field stun_binding_request len tid rest (omega arith),
  tid_field stun_binding_request len tid rest twelve,
  write_stun_header_lem stun_binding_success 0 0 tid twelve,
  append-nil (header stun_binding_success 0 tid),
)

-- A check that a peer builds for the user name of `a` and itself, as `a` takes it.
abbrev pub asked :
    Crypto
    → Bytes
    → IceAgent
    → ℕ
    → Bool
    → ℕ
    → Bool
    → Option Bytes
    → Bytes
    → ℕ
    → Outcome (IceAgent × HandleDataResult)
asked crypto tid a priority controlling tie_breaker use_candidate remote_pwd ip port = do
  r ←
      build_ice_binding_request crypto tid (a.local_ufrag ++ (b':' ∷ a.remote_ufrag)) priority
        controlling tie_breaker use_candidate remote_pwd
  handle_incoming_data a r.bytes ip port

abbrev pub success_to : Bytes → Bytes → ℕ → HandleDataResult
success_to tid ip port = record {
  app_data = none;
  actions =
      record { bytes = header stun_binding_success 0 tid; target_ip = ip; target_port = port } ∷ [];
}

module _ (crypto : Crypto) (tid : Bytes) (twelve : length tid ≡ 12) (a : IceAgent) where
  abbrev own_name : Bytes
  own_name = a.local_ufrag ++ (b':' ∷ a.remote_ufrag)

  -- The agent after a check of the pair that ends at the given address.
  abbrev checked : Bool → Bool → Bytes → ℕ → IceAgent
  checked controlling use_candidate ip port =
      let resolved = resolve_conflict (some controlling) a in
      connect_if is_early
        (mark_pair use_candidate (find_pair_by_remote resolved.check_list ip port) resolved)

  handle_incoming_data-checked :
      (priority : ℕ) (controlling : Bool) (tie_breaker : ℕ) (use_candidate : Bool)
      (remote_pwd : Option Bytes) (ip : Bytes) (port : ℕ)
      → All (λ c. c ≢ b':') a.local_ufrag
      → length own_name < 65000
      → from_utf8_lossy own_name ≡ own_name
      → priority < 2 ^ 32
      → asked crypto tid a priority controlling tie_breaker use_candidate remote_pwd ip port
        ≡ ret (checked controlling use_candidate ip port, success_to tid ip port)
  unfolding handle_incoming_data handle_incoming_stun respond
  handle_incoming_data-checked priority controlling tie_breaker use_candidate remote_pwd ip port
        plain short text small =
      let built =
        build_ice_binding_request_lem crypto tid twelve own_name priority controlling tie_breaker
          use_candidate remote_pwd in
      let named : 0 < length own_name =
        omega (arith, length-append a.local_ufrag (b':' ∷ a.remote_ufrag)) in
      let read =
        parse_ice_stun_message-build_ice_binding_request crypto tid own_name priority controlling
          tie_breaker use_candidate remote_pwd twelve named short text small in
      let parsed = rw built at read in
      let ours = (accepts_username_iff a a.local_ufrag a.remote_ufrag plain).1 (refl, refl) in
      rw (
        built,
        parsed,
        ours,
        build_ice_binding_response_lem (u16 (request_attrs_len own_name use_candidate remote_pwd))
            tid
            (encode_attributes (
              request_attributes crypto tid own_name priority controlling tie_breaker use_candidate
                remote_pwd))
            twelve,
      )

-- An agent, and a pair of its check list with those before and behind it.
module _ (a : IceAgent) (pre : List CandidatePair) (p : CandidatePair)
    (post : List CandidatePair) where
  abbrev pub listed : IceAgent
  listed = record a { check_list = pre ++ (p ∷ post) }

  -- The pair has succeeded by a check without USE-CANDIDATE.
  abbrev pub seen : Bool → IceAgent
  seen controlling = record a {
    role = if controlling && is_controlling a.role then IceRole.controlled else a.role;
    check_list = pre ++ (record p { state = CheckState.succeeded } ∷ post);
    state = if is_early a.state then IceState.connected else a.state;
  }

  -- The pair was chosen by a controlling peer.
  abbrev pub chosen : IceAgent
  chosen = record a {
    role = IceRole.controlled;
    check_list = pre ++ (record p { state = CheckState.succeeded; nominated = true } ∷ post);
    nominated_pair_idx = some (length pre);
    nominated_pair_confirmed = true;
    state =
        if a.nominated_pair_confirmed
        then (if is_early a.state then IceState.connected else a.state)
        else IceState.completed;
  }

  module _ (crypto : Crypto) (tid : Bytes) (twelve : length tid ≡ 12) (ip : Bytes) (port : ℕ)
      (before : All (λ q. ¬ EndsAt ip port q) pre) (ends : EndsAt ip port p) where
    checked-seen :
        (controlling : Bool)
        → checked crypto tid twelve listed controlling false ip port ≡ seen controlling
    unfolding resolve_conflict mark_pair connect_if set_state
    checked-seen controlling =
        let here = find_pair_by_remote-first pre p post ip port before ends in
        let marked = modify_at-first pre p post succeed in
        elim (Bool-cases (controlling && is_controlling a.role)) [
          | inl e ↦
              rw (e, here, marked)
                (elim (Bool-cases (is_early a.state)) [ inl k ↦ rw k refl | inr k ↦ rw k refl ])
          | inr e ↦
              rw (e, here, marked)
                (elim (Bool-cases (is_early a.state)) [ inl k ↦ rw k refl | inr k ↦ rw k refl ])
        ]

    checked-chosen : checked crypto tid twelve listed true true ip port ≡ chosen
    unfolding resolve_conflict mark_pair connect_if confirm set_state
    checked-chosen =
        let here = find_pair_by_remote-first pre p post ip port before ends in
        let marked = modify_at-first pre p post succeed_nominated in
        elim a.role
          as (λ role.
            checked crypto tid twelve (record listed { role = role }) true true ip port ≡ chosen) [
              | IceRole.controlling ↦
                  rw (here, marked)
                    (elim (Bool-cases a.nominated_pair_confirmed) [
                      | inl c ↦ rw c (elim (Bool-cases (is_early a.state)) [
                        | inl k ↦ rw k refl
                        | inr k ↦ rw k refl
                      ])
                      | inr c ↦ rw c refl
                    ])
              | IceRole.controlled ↦
                  rw (here, marked)
                    (elim (Bool-cases a.nominated_pair_confirmed) [
                      | inl c ↦ rw c (elim (Bool-cases (is_early a.state)) [
                        | inl k ↦ rw k refl
                        | inr k ↦ rw k refl
                      ])
                      | inr c ↦ rw c refl
                    ])
            ]

    pub handle_incoming_data-check :
        (priority : ℕ) (controlling : Bool) (tie_breaker : ℕ) (remote_pwd : Option Bytes)
        → All (λ c. c ≢ b':') a.local_ufrag
        → length (own_name crypto tid twelve a) < 65000
        → from_utf8_lossy (own_name crypto tid twelve a) ≡ own_name crypto tid twelve a
        → priority < 2 ^ 32
        → (asked crypto tid listed priority controlling tie_breaker false remote_pwd ip port
            ≡ ret (seen controlling, success_to tid ip port))
          × (asked crypto tid listed priority true tie_breaker true remote_pwd ip port
              ≡ ret (chosen, success_to tid ip port))
    handle_incoming_data-check priority controlling tie_breaker remote_pwd plain short text small =
        (
          handle_incoming_data-checked crypto tid twelve listed priority controlling tie_breaker
                false remote_pwd ip port plain short text small
              ∙ ap (λ after. ret (after, success_to tid ip port)) (checked-seen controlling),
          handle_incoming_data-checked crypto tid twelve listed priority true tie_breaker true
                remote_pwd ip port plain short text small
              ∙ ap (λ after. ret (after, success_to tid ip port)) checked-chosen,
        )

abbrev pub success_reading : Bytes → ParsedStunMessage
success_reading tid = record default_message {
  is_stun = true;
  is_response = true;
  transaction_id = tid;
}

pub parse_ice_stun_message-success :
    (tid : Bytes)
    → length tid ≡ 12
    → parse_ice_stun_message (header stun_binding_success 0 tid) ≡ ret (success_reading tid)
unfolding encode_attributes classify
parse_ice_stun_message-success tid twelve =
    ap parse_ice_stun_message (sym (append-nil (header stun_binding_success 0 tid)))
    ∙ parse_ice_stun_message-absorb stun_binding_success tid [] (success_reading tid) (omega arith)
        refl twelve (omega arith) tt

-- An agent that takes an answer for the pair `p`.
module _ (b : IceAgent) (pre : List CandidatePair) (p : CandidatePair)
    (post : List CandidatePair) where
  abbrev pub answered_list : List CandidatePair
  answered_list = pre ++ (record p { state = CheckState.succeeded } ∷ post)

  -- A controlled agent.
  abbrev pub controlled_agent : IceAgent
  controlled_agent = record b { role = IceRole.controlled; check_list = pre ++ (p ∷ post) }

  -- A controlling agent that has nominated the pair.
  abbrev pub nominating : IceAgent
  nominating = record b {
    role = IceRole.controlling;
    check_list = pre ++ (p ∷ post);
    nominated_pair_idx = some (length pre);
    nominated_pair_confirmed = false;
  }
