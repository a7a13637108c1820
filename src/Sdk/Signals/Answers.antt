-- ===== src/Sdk/Signals/Answers.antt =====
-- sdk/crates/p2p-sdk/src/client.rs: an offer that reaches the other client, and the answer to it.
use p2psdk.Prelude.{
  ℕ, ◌≡◌, refl, sym, ap, ◌∙◌, inl, inr, false, none, some, List, [], ◌∷◌, Bool-cases, eq_bytes, ok,
  ret, ◌>>=◌,
}
use p2psdk.Crypto.{Crypto}
use p2psdk.Ice.Agent.{
  IceAgent, add_remote_cand, add_parsed, add_remote_candidate, add_remote_candidates,
  set_remote_session_description, same_address, any_of,
}
use p2psdk.Ice.Candidate.{parse_candidate_line}
use p2psdk.Ice.Agent.Tick.{is_over, tick_pairs, check_completion}
use p2psdk.Ice.Agent.Tick
use p2psdk.Ice.CheckList.{all_pairs_failed}
use p2psdk.Sdk.Client.{ClientInner, set_agent, tick}
use p2psdk.Sdk.Signals.{
  IceCodec, IceDataMessage, handle_signaling_message, take_description, describe,
}
use p2psdk.Types.{IceCandidate, IceSessionDescription, codes}
use p2psdk.Wire.{Bytes}

-- The checks that are on the list, and the state, are those of before.
abbrev pub SameChecks : IceAgent → IceAgent → Type 0
SameChecks a b = (b.check_list ≡ a.check_list) × (b.state ≡ a.state)

add_remote_cand-SameChecks : (a : IceAgent) (c : IceCandidate) → SameChecks a (add_remote_cand a c)
unfolding add_remote_cand
add_remote_cand-SameChecks a c = elim (Bool-cases (any_of (same_address c) a.remote_candidates)) [
  | inl e ↦ rw e (refl, refl)
  | inr e ↦ rw e (refl, refl)
]

add_remote_candidate-SameChecks :
    (a : IceAgent) (line : Bytes) → SameChecks a (add_remote_candidate a line)
unfolding add_remote_candidate
add_remote_candidate-SameChecks a line =
    elim (parse_candidate_line line) as (λ o. SameChecks a (add_parsed a o)) [
      | none ↦ (refl, refl)
      | some c ↦ add_remote_cand-SameChecks a c
    ]

add_remote_candidates-SameChecks :
    (a : IceAgent) (lines : List Bytes) → SameChecks a (add_remote_candidates a lines)
unfolding add_remote_candidates
add_remote_candidates-SameChecks a [] = (refl, refl)
add_remote_candidates-SameChecks a (l ∷ ls) =
    let one = add_remote_candidate-SameChecks a l in
    let rest = add_remote_candidates-SameChecks (add_remote_candidate a l) ls in
    (rest.0 ∙ one.0, rest.1 ∙ one.1)

set_remote_session_description-SameChecks :
    (a : IceAgent) (desc : IceSessionDescription)
    → SameChecks a (set_remote_session_description a desc)
unfolding set_remote_session_description
set_remote_session_description-SameChecks a desc =
    add_remote_candidates-SameChecks
      (record a {
        remote_ufrag = desc.ice_ufrag;
        remote_pwd = desc.ice_pwd;
        remote_is_lite = desc.is_lite;
      })
      desc.candidates

-- A `tick` of an agent without pairs does nothing.
tick-no_pairs :
    (crypto : Crypto) (fresh : ℕ → Bytes) (a : IceAgent) (now_ms : ℕ)
    → a.check_list ≡ []
    → Tick.tick crypto fresh a now_ms ≡ ret (a, [])
unfolding Tick.tick tick_pairs check_completion all_pairs_failed
tick-no_pairs crypto fresh a now_ms e = elim (Bool-cases (is_over a.state)) [
  | inl over ↦ rw over refl
  | inr live ↦ rw live (
      ap
        (λ l. tick_pairs crypto fresh a now_ms 0 l >>= λ done.
          ret (check_completion (record a { check_list = done.0 }), done.1))
        e
      ∙ ap (λ l. ret (record a { check_list = l }, [])) (sym e))
]

tick-set_agent :
    (crypto : Crypto) (fresh : ℕ → Bytes) (inner : ClientInner) (a : IceAgent) (now_ms : ℕ)
    → a.check_list ≡ []
    → tick crypto fresh (set_agent inner a) now_ms ≡ ret (set_agent inner a, [])
unfolding tick
tick-set_agent crypto fresh inner a now_ms e =
    ap (λ ticked. ticked >>= λ done. ret (set_agent inner done.0, done.1))
      (tick-no_pairs crypto fresh a now_ms e)

take_answer_lem :
    {Json : Type 0} (codec : IceCodec Json) (inner : ClientInner) (value : Json) (a : IceAgent)
    (m : IceDataMessage)
    → inner.ice_agent ≡ some a
    → codec.action_of value ≡ some (codes "iceAnswer")
    → codec.from_value value ≡ ok m
    → handle_signaling_message codec inner value
      ≡ (set_agent inner (set_remote_session_description a (describe m)), ok tt)
unfolding handle_signaling_message eq_bytes
take_answer_lem codec inner value a m e act read =
    rw (act, read) (ap (take_description false inner (describe m)) e)

-- When the checks were not started yet, the answer to an offer does not start them: the client that
-- made the offer takes the peer's description, and `tick` sends nothing and changes nothing from then
-- on, at any time.
pub handle_signaling_message-answer :
    (crypto : Crypto) (fresh : ℕ → Bytes) {Json : Type 0} (codec : IceCodec Json)
    (inner : ClientInner) (value : Json) (a : IceAgent) (m : IceDataMessage) (now_ms : ℕ)
    → inner.ice_agent ≡ some a
    → a.check_list ≡ []
    → codec.action_of value ≡ some (codes "iceAnswer")
    → codec.from_value value ≡ ok m
    → let after = (handle_signaling_message codec inner value).0 in
      (after ≡ set_agent inner (set_remote_session_description a (describe m)))
      × (tick crypto fresh after now_ms ≡ ret (after, []))
handle_signaling_message-answer crypto fresh codec inner value a m now_ms e empty act read =
    let told = set_remote_session_description a (describe m) in
    let none_started = (set_remote_session_description-SameChecks a (describe m)).0 ∙ empty in
    let taken = take_answer_lem codec inner value a m e act read in
    (
      ap (λ done. done.0) taken,
      rw taken (tick-set_agent crypto fresh inner told now_ms none_started),
    )
