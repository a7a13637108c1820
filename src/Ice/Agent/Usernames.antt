-- ===== src/Ice/Agent/Usernames.antt =====
-- sdk/crates/p2p-core/src/ice/agent.rs: the USERNAME that a check carries and the one that is
-- accepted.
use p2psdk.Prelude.{
  ℕ, ◌≡◌, refl, ◌≢◌, ◌↔◌, ◌⊎◌, inl, inr, Bool, true, false, ◌&&◌, some, [], ◌∷◌, ◌++◌, arith, ◌==◌,
  Bool-cases, eq_bytes_refl, eq_bytes_sound, All, ret,
}
use p2psdk.Ice.Agent.{IceAgent}
use p2psdk.Ice.Agent.Incoming.{accepts_username, handle_incoming_stun, no_result}
use p2psdk.Ice.CheckList.{is_empty}
use p2psdk.Ice.StunCodec.{ParsedStunMessage}
use p2psdk.Text.Words.{split_colon}
use p2psdk.Wire.{Bytes}

split_colon-append :
    (left right : Bytes)
    → All (λ c. c ≢ b':') left
    → split_colon (left ++ (b':' ∷ right)) ≡ some (left, right)
unfolding split_colon
split_colon-append [] right h = refl
split_colon-append (c ∷ cs) right h =
    let other : (c == b':') ≡ false = ground (arith, h.0) in
    rw (other, split_colon-append cs right h.1)

is_empty-append : (left right : Bytes) (c : ℕ) → is_empty (left ++ (c ∷ right)) ≡ false
is_empty-append [] right c = refl
is_empty-append (b ∷ bs) right c = refl

-- A name of the form `ours:theirs`, with no colon in `ours`, is accepted if and only if `ours` is the
-- agent's user fragment and `theirs` the one that it was told of its peer.
pub accepts_username_iff :
    (a : IceAgent) (ours theirs : Bytes)
    → All (λ c. c ≢ b':') ours
    → (accepts_username a (ours ++ (b':' ∷ theirs)) ≡ true)
      ↔ ((ours ≡ a.local_ufrag) × (theirs ≡ a.remote_ufrag))
unfolding accepts_username
accepts_username_iff a ours theirs plain =
    rw (is_empty-append ours theirs b':', split_colon-append ours theirs plain)
      (
        (λ e. (
          eq_bytes_sound ours a.local_ufrag (both_sound _ _ e).0,
          eq_bytes_sound theirs a.remote_ufrag (both_sound _ _ e).1,
        )),
        λ h. rw (h.0, h.1, eq_bytes_refl a.local_ufrag, eq_bytes_refl a.remote_ufrag) refl,
      )
  where
    both_sound : (b c : Bool) → (b && c) ≡ true → (b ≡ true) × (c ≡ true)
    both_sound b c e = ground arith

-- A request whose USERNAME names another agent, or another peer, changes nothing and gets no answer.
pub handle_incoming_stun-other_username :
    (a : IceAgent) (raw : Bytes) (m : ParsedStunMessage) (ours theirs ip : Bytes) (port : ℕ)
    → m.username ≡ ours ++ (b':' ∷ theirs)
    → All (λ c. c ≢ b':') ours
    → (ours ≢ a.local_ufrag) ⊎ (theirs ≢ a.remote_ufrag)
    → handle_incoming_stun a raw m ip port ≡ ret (a, no_result)
unfolding handle_incoming_stun
handle_incoming_stun-other_username a raw m ours theirs ip port named plain other =
    elim (Bool-cases (accepts_username a (ours ++ (b':' ∷ theirs)))) [
      | inr e ↦ rw (named, e)
      | inl e ↦
          let both = (accepts_username_iff a ours theirs plain).0 e in
          absurd (elim other [ inl l ↦ l both.0 | inr r ↦ r both.1 ])
    ]
